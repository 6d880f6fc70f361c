-- ===== src/Services/Validation.antt =====
-- src/app/services/validation.py: input rules shared by the services.
pub mod Laws
pub mod Actors
use saas_agent_lab.Common.{ℕ, String, Bool, ltb, ◌++◌, if◌then◌else◌}
use saas_agent_lab.Text.{Text, Unicode, codes, is_empty, strip, casefold, starts_with}
use saas_agent_lab.Text.Decimal.{decimal}
use saas_agent_lab.Common.{length}
use saas_agent_lab.Errors.{invalid_input, empty, too_long, reserved_actor}
use saas_agent_lab.Session.{Result, ok, raise, ⊤, and_then}

abbrev pub actor_max_length : ℕ
actor_max_length = 320

abbrev pub agent_actor_prefix : Text
agent_actor_prefix = codes "agent:"

unfoldable pub required_text : Text → String → ℕ → Result Text
required_text value field max_length =
    let stripped = strip value in
    if is_empty stripped
    then raise (invalid_input (empty field))
    else if ltb max_length (length stripped)
    then raise (invalid_input (too_long field max_length))
    else ok stripped

unfoldable pub validated_actor : Text → Result Text
unfolding required_text
validated_actor actor = required_text actor "Actor" actor_max_length

-- The actor as it would be stored, ignoring case, claims the agent namespace.
unfoldable pub is_reserved_actor : Unicode → Text → Bool
is_reserved_actor u actor = starts_with agent_actor_prefix (casefold u (strip actor))

unfoldable pub reject_reserved_actor : Unicode → Text → Result ⊤
unfolding is_reserved_actor
reject_reserved_actor u actor =
    if is_reserved_actor u actor then raise (invalid_input reserved_actor) else ok tt

unfoldable pub validated_external_actor : Unicode → Text → Result Text
unfolding reject_reserved_actor validated_actor and_then
validated_external_actor u actor =
    and_then (reject_reserved_actor u actor) (λ _. validated_actor actor)

-- `agent:run-<id>`.
unfoldable pub agent_run_actor : ℕ → Result Text
unfolding validated_actor
agent_run_actor run_id = validated_actor (agent_actor_prefix ++ (codes "run-" ++ decimal run_id))
