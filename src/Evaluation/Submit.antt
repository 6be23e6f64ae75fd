-- ===== src/Evaluation/Submit.antt =====
-- useCheckpointEvaluation.ts: the mutation that submits an evaluation, with its timeout, and what
-- counts as a lost network.
pub mod Laws
use platform_rally_extension.Base.{
  ℕ, String, ◌≡◌, Bool, true, false, not, if◌then◌else◌, ◌==◌, Same-nat, Option, none, some, List,
  [], ◌∷◌, ◌++◌,
}
use platform_rally_extension.Offline.EvalQueue.{Idb, Submit as QueuedSubmit, enqueue}
use platform_rally_extension.Evaluation.Payload.{FormData, EvaluatePayload}

-- What a request can reject with; `B` is the type of response bodies. A `status` of 0 is the
-- client's mark for "no response".
pub data Failure (B : Type 0) : Type 0 where
  network_timeout : Failure B
  api_error : ℕ → Option B → String → Failure B
  type_error : Failure B
  other_error : Failure B

-- `navigator.onLine`, `none` where there is no `navigator`.
abbrev pub Navigator : Type 0
Navigator = Option Bool

abbrev pub is_offline : Navigator → Bool
is_offline none = false
is_offline (some on_line) = not on_line

module _ {B : Type 0} where
  unfoldable pub is_network_error : Navigator → Failure B → Bool
  is_network_error navigator network_timeout = true
  is_network_error navigator (api_error status body message) = status == 0
  is_network_error navigator type_error = if is_offline navigator then true else true
  is_network_error navigator other_error = if is_offline navigator then true else false

-- A promise that is settled with a value or a failure.
pub data Outcome (A B : Type 0) : Type 0 where
  fulfilled : A → Outcome A B
  rejected : Failure B → Outcome A B

-- What happens while a request is awaited under `withNetworkTimeout`, in order.
pub data Event (A B : Type 0) : Type 0 where
  timer : Event A B
  settled : Outcome A B → Event A B

module _ {A B : Type 0} where
  -- The first event settles the promise, and what follows changes nothing; `none` is pending.
  unfoldable pub with_network_timeout : List (Event A B) → Option (Outcome A B)
  with_network_timeout [] = none
  with_network_timeout (timer ∷ later) = some (rejected network_timeout)
  with_network_timeout (settled o ∷ later) = some o

-- What the mutation throws.
pub data Thrown (B : Type 0) : Type 0 where
  offline_queued : Thrown B
  body : B → Thrown B
  detail : String → Thrown B
  failure : Failure B → Thrown B

pub data Result (A B : Type 0) : Type 0 where
  ok : A → Result A B
  thrown : Thrown B → Result A B

module _ {B : Type 0} where
  -- `throw error.body ?? { detail: error.message }`, and any other failure as it is.
  abbrev pub rethrow : Failure B → Thrown B
  rethrow (api_error status (some b) message) = body b
  rethrow (api_error status none message) = detail message
  rethrow e = failure e

module _ {N : Type 0} where
  -- `{ idempotencyKey, teamId, activityId, resultData }`
  abbrev pub to_queue : EvaluatePayload N → QueuedSubmit (FormData N)
  to_queue p = record {
    idempotency_key = p.idempotency_key;
    team_id = p.team_id;
    activity_id = p.activity_id;
    result_data = p.result_data;
  }

module _ {A B N : Type 0} where
  -- The `catch` of `mutationFn`.
  unfoldable pub on_failure :
      Navigator
      → ℕ
      → EvaluatePayload N
      → Failure B
      → Idb (FormData N)
      → Result A B × Idb (FormData N)
  on_failure navigator now p e s =
      if is_network_error navigator e
      then (thrown offline_queued, enqueue now (to_queue p) s)
      else (thrown (rethrow e), s)

  -- `mutationFn`, from the answer that the request got; `now` is `Date.now()`.
  unfoldable pub mutation_fn :
      Navigator
      → ℕ
      → EvaluatePayload N
      → Outcome A B
      → Idb (FormData N)
      → Result A B × Idb (FormData N)
  mutation_fn navigator now p (fulfilled a) s = (ok a, s)
  mutation_fn navigator now p (rejected e) s = on_failure navigator now p e s
