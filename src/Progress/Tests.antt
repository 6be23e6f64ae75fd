-- ===== src/Progress/Tests.antt =====
-- A team's page at concrete inputs.
use platform_rally_extension.Base.{
  length, ◌≤◌, ◌⊎◌, ℕ, ◌≡◌, refl, true, false, not, if◌then◌else◌, ◌==◌, Same-text, Same-nat, none,
  some, [],
}
use platform_rally_extension.Base.Keyed.{lookup}
use platform_rally_extension.Auth.Storage.{is_there}
use platform_rally_extension.Offline.ArrivalQueue
use platform_rally_extension.Offline.ArrivalQueue.{checkpoint_of, with_failed}
use platform_rally_extension.Offline.Sync.{sync_arrivals}
use platform_rally_extension.Progress.OpeningHours.{
  Clock, Hours, checkpoint_opening_notice, hours_block_reason, is_open_at, reason_text, Agrees,
  checkpoint_opening_notice_lem,
}
use platform_rally_extension.Progress.Checkin.{
  Card, CheckinError, idle, queued, is_offline_failure, is_queued_here, on_error,
}
use platform_rally_extension.Progress.Scanner.{
  initial, nothing, code, scan, start_scanning, run_effect, on_frame, started, effect, frame, Reach,
  here, next,
}
use platform_rally_extension.Progress.Scanner.Once.{Reach-IsOnce}
use platform_rally_extension.Progress.Checkin.Offline.{on_error-syncs}

abbrev clock : Clock
clock = record { parse = λ s. if s == "22:00" then some 2200 else none; format_time = λ n. "22:00" }

abbrev bar_hours : Hours
bar_hours = record { available_from = some "22:00"; available_until = none }

bar_hours-Agrees : Agrees clock bar_hours (some 2200) none
bar_hours-Agrees = record { from_read = refl; until_read = refl }

notice_example :
    (checkpoint_opening_notice clock bar_hours 2100
      ≡ reason_text clock (some 2200) none (hours_block_reason true (some 2200) none 2100))
    × (is_there (checkpoint_opening_notice clock bar_hours 2100)
        ≡ not (is_open_at (some 2200) none 2100))
notice_example =
    checkpoint_opening_notice_lem clock bar_hours (some 2200) none 2100 bar_hours-Agrees

abbrev card : Card ℕ
card = record {
  checkpoint_id = 4;
  gps_state = idle;
  requests = [];
  invalidated = [];
  sync = record { store = record { queue = none; changes = 0; in_window = true }; queued = [] };
}

abbrev no_answer : CheckinError
no_answer = record { body_detail = false; response_detail = false }

no_answer_lost : is_offline_failure (some true) no_answer ≡ true
unfolding is_offline_failure
no_answer_lost = refl

checkin_example :
    let card' = on_error (some true) 9 no_answer 40 8 card in
    (card'.gps_state ≡ queued)
    × (is_queued_here card' ≡ true)
    × (lookup checkpoint_of 4 (sync_arrivals (some true) (λ r. true) card'.sync).0.queued ≡ none)
unfolding ArrivalQueue.read_all
checkin_example = on_error-syncs (some true) 9 no_answer 40 8 card (λ r. true) no_answer_lost tt

scanner-Reach :
    Reach initial (on_frame 1 (code "team") (run_effect nothing (start_scanning initial)))
unfolding run_effect start_scanning scan
scanner-Reach =
    next (next (next here (started _)) (effect nothing _)) (frame 1 (code "team") _ refl)

scanner_example :
    let s = on_frame 1 (code "team") (run_effect nothing (start_scanning initial)) in
    (length s.detected ≤ s.starts)
    × (length s.frames ≤ 1)
    × ((s.is_active ≡ true) ⊎ (s.frames ≡ []))
scanner_example = Reach-IsOnce scanner-Reach
