-- ===== src/Progress/Checkin.antt =====
-- The GPS check-in of web-rally/src/pages/team-progress/NextCheckpointCard.tsx, and what the card
-- offers. Coordinates are values of `C`; distances are whole metres; the texts of the messages are
-- left out.
pub mod Offline
use platform_rally_extension.Base.{
  ℕ, ltb, Bool, true, false, ◌&&◌, ◌||◌, not, if◌then◌else◌, ◌==◌, Same-nat, Option, none, some,
  get_or, List, [], ◌∷◌, any, String,
}
use platform_rally_extension.Evaluation.Submit.{Navigator, is_offline}
use platform_rally_extension.Offline.ArrivalQueue.{Arrival, QueuedArrival, enqueue_arrival}
use platform_rally_extension.Offline.Sync.{ArrivalSync, ArriveRequest, refresh}

pub data GpsState : Type 0 where
  idle locating done queued error : GpsState

-- What is thrown by the request: whether `body?.detail` and `response?.data?.detail` are there.
pub record CheckinError : Type 0 where
  pub body_detail : Bool
  pub response_detail : Bool

unfoldable pub is_offline_failure : Navigator → CheckinError → Bool
is_offline_failure navigator e =
    if is_offline navigator then true else not e.body_detail && not e.response_detail

pub record ArriveResponse : Type 0 where
  pub auto_completed : Bool
  pub already_registered : Bool

-- The card of one checkpoint: its state, the requests that were sent, the query keys that were
-- invalidated, and the hook of the queue.
pub record Card (C : Type 0) : Type 0 where
  pub checkpoint_id : ℕ
  pub gps_state : GpsState
  pub requests : List (ArriveRequest C)
  pub invalidated : List String
  pub sync : ArrivalSync C

-- What the browser's geolocation brings: it is not there, or fails, or gives the position.
pub data Location (C : Type 0) : Type 0 where
  unsupported refused : Location C
  position : C → C → Location C

module _ {C : Type 0} where
  unfoldable pub is_queued_here : Card C → Bool
  is_queued_here card = any (λ item. item.checkpoint_id == card.checkpoint_id) card.sync.queued

  unfoldable pub on_success : ArriveResponse → Card C → Card C
  on_success response card = record card {
    gps_state = done;
    invalidated = if response.auto_completed then "team" ∷ "checkpoints" ∷ [] else [];
  }

  abbrev pub arrival_at : ℕ → C → C → Arrival C
  arrival_at id lat lng = record { checkpoint_id = id; latitude = lat; longitude = lng }

  -- The queue's event makes the hook read the queue again.
  unfoldable pub on_error : Navigator → ℕ → CheckinError → C → C → Card C → Card C
  on_error navigator now e lat lng card =
      if is_offline_failure navigator e
      then record card {
        gps_state = queued;
        sync = refresh (record card.sync {
          store = enqueue_arrival now (arrival_at card.checkpoint_id lat lng) card.sync.store;
        });
      }
      else record card { gps_state = error }

  -- The button, up to the answer of the server.
  unfoldable pub handle_checkin : Location C → Card C → Card C
  handle_checkin unsupported card = record card { gps_state = error }
  handle_checkin refused card = record card { gps_state = error }
  handle_checkin (position lat lng) card = record card {
    gps_state = locating;
    requests =
        record { checkpoint_id = card.checkpoint_id; latitude = lat; longitude = lng }
        ∷ card.requests;
  }

-- The checkpoint and the settings that the card reads, and the hints of `useCheckpointHints`.
pub record Offer : Type 0 where
  pub has_coords : Bool
  pub is_redacted : Option Bool
  pub arrival_radius_m : Option ℕ
  pub opening_notice : Option String
  pub gps_checkin_enabled : Option Bool
  pub skip_enabled : Option Bool
  pub revealed : ℕ
  pub remaining : ℕ

abbrev pub is_none : {A : Type 0} → Option A → Bool
is_none none = true
is_none (some a) = false

unfoldable pub can_checkin : Offer → Bool
can_checkin o =
    get_or o.gps_checkin_enabled false
    && (o.has_coords || get_or o.is_redacted false)
    && ltb 0 (get_or o.arrival_radius_m 0)
    && is_none o.opening_notice

unfoldable pub has_hint_ladder : Offer → Bool
has_hint_ladder o = ltb 0 o.revealed || ltb 0 o.remaining

unfoldable pub can_give_up : Offer → Bool
can_give_up o = get_or o.skip_enabled true && get_or o.is_redacted false && o.remaining == 0
