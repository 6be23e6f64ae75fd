-- ===== src/Evaluation/Payload.antt =====
-- web-rally/src/types/forms.ts and checkpointEvaluation.types.ts: what a form submits, and the request
-- made of it. The code reads the data with `?.` and `??`, so each field may be missing here.
use platform_rally_extension.Base.{ℕ, String, Option, none, some, get_or}
use platform_rally_extension.Base.Value.{Fields, end}

-- `N` is the type of numbers; `penalties` is a record of numbers.
pub record ActivityResultData (N : Type 0) : Type 0 where
  pub result_data : Option (Fields N)
  pub extra_shots : Option N
  pub penalties : Option (Fields N)

pub record ActivityResultEvaluation (N : Type 0) : Type 0 where
  pub result_data : Fields N
  pub extra_shots : N
  pub penalties : Fields N

-- The data of a submit, `undefined` included.
abbrev pub FormData : Type 0 → Type 0
FormData N = Option (ActivityResultData N)

-- `EvaluatePayload`
pub record EvaluatePayload (N : Type 0) : Type 0 where
  pub team_id : ℕ
  pub activity_id : ℕ
  pub result_data : FormData N
  pub idempotency_key : String

-- The call `evaluateTeamActivity({ path, body, headers })`.
pub record EvaluateRequest (N : Type 0) : Type 0 where
  pub team_id : ℕ
  pub activity_id : ℕ
  pub body : ActivityResultEvaluation N
  pub idempotency_key : String

module _ {N : Type 0} (zero_shots : N) where
  -- `{ result_data: resultData?.result_data ?? {}, … }`
  abbrev pub to_evaluation : FormData N → ActivityResultEvaluation N
  to_evaluation none = record { result_data = end; extra_shots = zero_shots; penalties = end }
  to_evaluation (some d) = record {
    result_data = get_or d.result_data end;
    extra_shots = get_or d.extra_shots zero_shots;
    penalties = get_or d.penalties end;
  }

  -- The request of the first attempt.
  unfoldable pub request_of : EvaluatePayload N → EvaluateRequest N
  request_of p = record {
    team_id = p.team_id;
    activity_id = p.activity_id;
    body = to_evaluation p.result_data;
    idempotency_key = p.idempotency_key;
  }
