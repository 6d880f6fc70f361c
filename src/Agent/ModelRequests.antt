-- ===== src/Agent/ModelRequests.antt =====
-- src/app/agent/model_requests.py: what every PydanticAI planner does around each model request. PydanticAI,
-- the provider and the clock are code that is not in the repository: what they do is an argument.
pub mod Failures
use saas_agent_lab.Common.{
  ℕ, zero, suc, ℤ, pos, negsuc, String, Bool, false, ◌||◌, Option, none, some, List, [], ◌∷◌, ◌++◌,
  any, map, if◌then◌else◌,
}
use saas_agent_lab.Text.{Text, codes, is_substring}
use saas_agent_lab.Errors.{
  Exc, planner_error, other, type_name, Message, written, http_error, InvalidOutput, invalid_output,
}
use saas_agent_lab.Json.{Fields}
use saas_agent_lab.Schemas.Agent.{ModelCallError, ModelCallRecord}
use saas_agent_lab.Schemas.AgentRuns.Validation.{ModelCallOutput, dump_output}
use saas_agent_lab.Session.{Result, ok, raise, ⊤}

-- What the source asks of one exception: its class name, and `isinstance` of a class of a library.
pub record Raised : Type 0 where
  pub class_name : String
  pub timeout_error : Bool
  pub model_api_error : Bool
  pub http_status : Option ℕ
  pub unexpected_model_behavior : Bool
  pub user_error : Bool

-- An exception during a planner's work: one that a callback of the application raised, or one of a
-- library, with its chain of causes.
pub data Failure : Type 0 where
  application : Exc → Failure
  library : Raised → List Raised → Failure

-- An exception of the application is of none of the libraries' classes.
abbrev pub raised_of : Exc → Raised
raised_of e = record {
  class_name = type_name e;
  timeout_error = false;
  model_api_error = false;
  http_status = none;
  unexpected_model_behavior = false;
  user_error = false;
}

abbrev pub first : Failure → Raised
first (application e) = raised_of e
first (library r causes) = r

abbrev pub chain : Failure → List Raised
chain (application e) = raised_of e ∷ []
chain (library r causes) = r ∷ causes

abbrev pub looks_like_timeout : Raised → Bool
looks_like_timeout r = r.timeout_error || is_substring (codes "Timeout") (codes r.class_name)

unfoldable pub is_timeout : Failure → Bool
is_timeout failure = any looks_like_timeout (chain failure)

unfoldable pub error_code : Failure → String
unfolding is_timeout
error_code failure =
    if is_timeout failure
    then "timeout"
    else if (first failure).model_api_error
    then "provider_error"
    else "unexpected_error"

abbrev pub unless_http : Option ℕ → Message → Message
unless_http none message = message
unless_http (some status_code) message = http_error status_code

abbrev pub error_message : Failure → Message
error_message failure =
    if is_timeout failure
    then written "The model request timed out."
    else unless_http (first failure).http_status (
        if (first failure).model_api_error
        then written "The model provider could not be reached or returned an error."
        else written "Unexpected error during the model request.")

unfoldable pub model_call_error : Failure → ModelCallError
unfolding error_code
model_call_error failure = record {
  code = error_code failure;
  message = error_message failure;
  error_type = some (first failure).class_name;
}

unfoldable pub as_planner_error : Failure → Option Exc
unfolding error_code
as_planner_error failure =
    if (first failure).unexpected_model_behavior
    then some (planner_error "output_retries_exhausted" (some (first failure).class_name))
    else if (first failure).user_error
    then some (planner_error "configuration_error" (some (first failure).class_name))
    else if (first failure).model_api_error || is_timeout failure
    then some (planner_error (error_code failure) (some (first failure).class_name))
    else none

-- One entry of `error.errors()`: the parts of its location, as texts, and its type.
pub record ErrorItem : Type 0 where
  pub loc : List Text
  pub type_ : Text

abbrev pub invalid_output_message_max_length : ℕ
invalid_output_message_max_length = 500

-- `separator.join(parts)`.
abbrev pub join : Text → List Text → Text
join separator [] = []
join separator (part ∷ []) = part
join separator (part ∷ next ∷ rest) = part ++ separator ++ join separator (next ∷ rest)

-- `text[:n]`.
abbrev pub take : ℕ → Text → Text
take zero text = []
take (suc n) [] = []
take (suc n) (c ∷ text) = c ∷ take n text

abbrev pub or_arguments : Text → Text
or_arguments [] = codes "arguments"
or_arguments (c ∷ loc) = c ∷ loc

abbrev pub problem : ErrorItem → Text
problem item = or_arguments (join (codes ".") item.loc) ++ codes ": " ++ item.type_

unfoldable pub describe_validation_error : List ErrorItem → Text
describe_validation_error errors =
    take invalid_output_message_max_length
      (codes "Invalid arguments: " ++ join (codes "; ") (map problem errors))

-- A tool call of a response, with what `args_as_dict` makes of its arguments: a dictionary, or `none` if
-- it raises.
pub record ToolCallPart : Type 0 where
  pub tool_name : Text
  pub args : Option Fields

pub data ResponsePart : Type 0 where
  tool_call_part : ToolCallPart → ResponsePart
  other_part : ResponsePart

pub record ModelResponse : Type 0 where
  pub parts : List ResponsePart
  pub input_tokens : ℕ
  pub output_tokens : ℕ

-- `[part for part in response.parts if isinstance(part, ToolCallPart)]`.
abbrev pub tool_call_parts : List ResponsePart → List ToolCallPart
tool_call_parts [] = []
tool_call_parts (tool_call_part call ∷ parts) = call ∷ tool_call_parts parts
tool_call_parts (other_part ∷ parts) = tool_call_parts parts

-- What `parse` returns, or the `InvalidOutput` that it raises.
pub data Parsed (A : Type 0) : Type 0 where
  accepted : A → Parsed A
  rejected : InvalidOutput → Parsed A

-- What the handler of a request did.
pub data Handled : Type 0 where
  responded : ModelResponse → Handled
  failed : Failure → Handled

-- What `wrap_model_request` returns or raises; `retry` is a `ModelRetry`.
pub data Wrapped : Type 0 where
  returned : ModelResponse → Wrapped
  raised : Failure → Wrapped
  retry : InvalidOutput → Wrapped

-- `_elapsed_ms`, of the difference of the clock's two readings, rounded to milliseconds: the clock need
-- not be monotonic.
abbrev pub elapsed_ms : ℤ → ℕ
elapsed_ms (pos n) = n
elapsed_ms (negsuc n) = 0

-- A request as it is recorded: the model's name and how long it took.
abbrev pub without_response : String → ℕ → Failure → ModelCallRecord
without_response model_name latency_ms failure = record {
  model_name = model_name;
  input_tokens = none;
  output_tokens = none;
  latency_ms = latency_ms;
  output = none;
  error = some (model_call_error failure);
}

abbrev pub with_response :
    String → ℕ → ModelResponse → Option Fields → Option ModelCallError → ModelCallRecord
with_response model_name latency_ms response output error = record {
  model_name = model_name;
  input_tokens = some response.input_tokens;
  output_tokens = some response.output_tokens;
  latency_ms = latency_ms;
  output = output;
  error = error;
}

abbrev pub rejection_error : InvalidOutput → ModelCallError
rejection_error invalid = record {
  code = "invalid_output";
  message = invalid_output invalid;
  error_type = some "InvalidOutput";
}

abbrev pub of_parsed :
    String → ℕ → ModelResponse → Parsed ModelCallOutput → ModelCallRecord × Wrapped
of_parsed model_name latency_ms response (accepted output) = (
  with_response model_name latency_ms response (some (dump_output output)) none,
  returned response,
)
of_parsed model_name latency_ms response (rejected invalid) = (
  with_response model_name latency_ms response none (some (rejection_error invalid)),
  retry invalid,
)

-- `wrap_model_request`, behind `before_request`: what is recorded of the request, and what is returned or
-- raised once it is recorded.
unfoldable pub wrap_model_request :
    (ModelResponse → Parsed ModelCallOutput) → String → ℤ → Handled → ModelCallRecord × Wrapped
unfolding model_call_error
wrap_model_request parse model_name elapsed (failed failure) =
    (without_response model_name (elapsed_ms elapsed) failure, raised failure)
wrap_model_request parse model_name elapsed (responded response) =
    of_parsed model_name (elapsed_ms elapsed) response (parse response)

-- An exception of the recorder takes the place of the request's own outcome.
abbrev pub once_recorded : Result ⊤ → Wrapped → Wrapped
once_recorded (ok _) wrapped = wrapped
once_recorded (raise e) wrapped = raised (application e)

abbrev pub exception_of : Failure → Exc
exception_of (application e) = e
exception_of (library r causes) = other r.class_name

-- `raise planner_error from None`, or `raise`.
abbrev pub normalized : Option Exc → Exc → Exc
normalized none e = e
normalized (some planner) e = planner

unfoldable pub planner_exception : Failure → Exc
unfolding as_planner_error
planner_exception failure = normalized (as_planner_error failure) (exception_of failure)
