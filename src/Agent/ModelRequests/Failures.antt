-- ===== src/Agent/ModelRequests/Failures.antt =====
-- src/app/agent/model_requests.py: how the exceptions of a model request are normalized.
use saas_agent_lab.Common.{
  String, ◌≡◌, refl, true, false, none, some, ◌⊎◌, inl, inr, List, [], ◌∷◌, any, All, Bool-cases,
  arith,
}
use saas_agent_lab.Errors.{planner_error}
use saas_agent_lab.Agent.ModelRequests.{
  Raised, Failure, first, chain, looks_like_timeout, is_timeout, error_code, model_call_error,
  as_planner_error,
}

-- No exception in the chain of causes looks like a timeout.
none_of :
    (rs : List Raised)
    → any looks_like_timeout rs ≡ false
    → All (λ r. looks_like_timeout r ≡ false) rs
none_of [] h = tt
none_of (r ∷ rs) h = (ground arith, none_of rs (ground arith))

-- The class of an exception decides: its own, but for a timeout, which any of its causes may be.
abbrev pub IsUnrelated : Failure → Type 0
IsUnrelated f =
    ((first f).unexpected_model_behavior ≡ false)
    × ((first f).user_error ≡ false)
    × ((first f).model_api_error ≡ false)
    × All (λ r. looks_like_timeout r ≡ false) (chain f)

-- What became of an exception: the budget ran out, the planner is not configured, or the request failed.
abbrev pub Normalized : Failure → String → Type 0
Normalized f code =
    ((code ≡ "output_retries_exhausted") × ((first f).unexpected_model_behavior ≡ true))
    ⊎ (((code ≡ "configuration_error") × ((first f).user_error ≡ true))
        ⊎ ((code ≡ (model_call_error f).code)
            × ((code ≡ "timeout") × (is_timeout f ≡ true)
                ⊎ (code ≡ "provider_error") × ((first f).model_api_error ≡ true))))

-- An exception of a PydanticAI run becomes a `PlannerError` with its class's name and one of four codes,
-- that of the failed request's record if it came from a request, or it is passed on unchanged; and it is
-- passed on only if it is of none of the classes that the planner knows, and neither it nor a cause of it
-- looks like a timeout.
pub as_planner_error-Normalized :
    (f : Failure)
    → ((code : String) × (as_planner_error f
          ≡ some (planner_error code (some (first f).class_name)))
        × Normalized f code)
      ⊎ ((as_planner_error f ≡ none) × IsUnrelated f)
unfolding as_planner_error error_code model_call_error is_timeout
as_planner_error-Normalized f = elim (Bool-cases (first f).unexpected_model_behavior) [
  | inl unexpected ↦ inl ("output_retries_exhausted", rw unexpected refl, inl (refl, unexpected))
  | inr expected ↦ elim (Bool-cases (first f).user_error) [
    | inl configuration ↦ inl (
      "configuration_error",
      rw expected (rw configuration refl),
      inr (inl (refl, configuration)),
    )
    | inr configured ↦ elim (Bool-cases (any looks_like_timeout (chain f))) [
      | inl timeout ↦
          inl ("timeout", ground arith, inr (inr (rw timeout refl, inl (refl, timeout))))
      | inr in_time ↦ elim (Bool-cases (first f).model_api_error) [
        | inl api ↦ inl (
          "provider_error",
          rw expected (rw configured (rw api (rw in_time refl))),
          inr (inr (rw in_time (rw api refl), inr (refl, api))),
        )
        | inr other ↦ inr (
          rw expected (rw configured (rw other (rw in_time refl))),
          (expected, configured, other, none_of (chain f) in_time),
        )
      ]
    ]
  ]
]
