-- ===== src/Offline/Tests.antt =====
-- The offline queues at concrete contents.
use platform_rally_extension.Base.{
  ℕ, String, ◌≡◌, refl, Bool, true, List, any, if◌then◌else◌, ◌==◌, Same-nat, Same-text, none, some,
  [], ◌∷◌, arith,
}
use platform_rally_extension.Base.Keyed.{lookup}
use platform_rally_extension.Offline.EvalQueue
use platform_rally_extension.Offline.EvalQueue.{
  QueuedEvalStatus, QueuedEval, pending, synced, failed, Submit, granted, key_of, queued, enqueue,
  enqueue_all, Replay, drain, with_status,
}
use platform_rally_extension.Offline.EvalQueue.Entries.{HasUniqueKeys}
use platform_rally_extension.Offline.EvalQueue.Drain.{drain-settles}
use platform_rally_extension.Offline.EvalQueue.Quiet.{leftover, drain-eq-leftover}
use platform_rally_extension.Offline.EvalQueue.Refinement.{
  Op, submitted, drained, failed_one, calls, notes, book_of, calls-refine,
}
use platform_rally_extension.Offline.EvalQueue.Retries.{drains, takes, drains-empty}
use platform_rally_extension.Offline.EvalQueue.Interleaving
use platform_rally_extension.Offline.EvalQueue.Interleaving.{
  interrupted, submit_lost, accepted-back,
}
use platform_rally_extension.Offline.EvalQueue.Callers
use platform_rally_extension.Offline.EvalQueue.Callers.{Reach-IsQueued, Reach-mark_synced}
use platform_rally_extension.Offline.Db.{
  Db, name_of, absent, open_database, on_upgrade_needed, on_success, Reach, here, next, call,
  upgrade, success,
}
use platform_rally_extension.Offline.Db.Opening.{IsComplete, opened-IsComplete}
use platform_rally_extension.Offline.Sync.{sync_now}
use platform_rally_extension.Offline.Sync.Laws.{lost_submit-syncs}
use platform_rally_extension.Evaluation.Payload.{FormData, EvaluatePayload, request_of}
use platform_rally_extension.Evaluation.Submit
use platform_rally_extension.Evaluation.Submit.{
  Failure, network_timeout, rejected, mutation_fn, to_queue,
}

abbrev entry : String → QueuedEval ℕ
entry k = record {
  idempotency_key = k;
  team_id = 1;
  activity_id = 2;
  result_data = 30;
  status = pending;
  created_at = 5;
}

abbrev submit_of : String → Submit ℕ
submit_of k = record { idempotency_key = k; team_id = 1; activity_id = 3; result_data = 40 }

abbrev two_entries : EvalQueue.Idb ℕ
two_entries = record {
  queue = some (entry "a" ∷ entry "b" ∷ []);
  changes = 0;
  in_window = true;
  sync = granted;
  tags = [];
}

-- The server accepts "a"; the page submits "c" while "a" is awaited.
abbrev busy : Replay ℕ
busy = record {
  accepted = λ i. i.idempotency_key == "a";
  meanwhile = λ i. if i.idempotency_key == "a" then (9, submit_of "c") ∷ [] else [];
}

abbrev quiet : Replay ℕ
quiet = record { accepted = λ i. i.idempotency_key == "a"; meanwhile = λ i. [] }

two_entries_unique : HasUniqueKeys two_entries
unfolding EvalQueue.read_all
two_entries_unique = (refl, (refl, tt))

drain_run :
    EvalQueue.read_all (drain busy two_entries)
    ≡ with_status failed (entry "b") ∷ queued 9 (submit_of "c") ∷ []
unfolding drain EvalQueue.drain_items EvalQueue.drain_one EvalQueue.read_all EvalQueue.write_all
    EvalQueue.mark_synced EvalQueue.mark_failed EvalQueue.update_status enqueue enqueue_all
    EvalQueue.request_background_sync
drain_run = refl

drain-settles_example :
    lookup key_of "b" (EvalQueue.read_all (drain busy two_entries))
    ≡ some (with_status failed (entry "b"))
unfolding EvalQueue.read_all
drain-settles_example =
    drain-settles busy two_entries "b" (entry "b") two_entries_unique refl (refl, tt)

drain-eq-leftover_example :
    EvalQueue.read_all (drain quiet two_entries) ≡ leftover quiet (EvalQueue.read_all two_entries)
unfolding EvalQueue.read_all
drain-eq-leftover_example =
    drain-eq-leftover quiet two_entries two_entries_unique (refl, (refl, tt))

abbrev two_calls : List (Op ℕ)
two_calls =
    submitted 9 (submit_of "c") ∷ drained (λ i. i.idempotency_key == "a") ∷ failed_one "c" ∷ []

calls-refine_example :
    HasUniqueKeys (calls two_calls two_entries)
    × ((k : String)
        → book_of (calls two_calls two_entries) k ≡ notes two_calls (book_of two_entries) k)
calls-refine_example = calls-refine two_calls two_entries two_entries_unique

-- The first server takes "a" only, the second one everything.
abbrev servers : List (QueuedEval ℕ → Bool)
servers = (λ i. i.idempotency_key == "a") ∷ (λ i. true) ∷ []

servers_take : (i : QueuedEval ℕ) → any (takes i) servers ≡ true
servers_take i = ground arith

drains-empty_example : EvalQueue.read_all (drains servers two_entries) ≡ []
drains-empty_example = drains-empty servers two_entries two_entries_unique (λ k i e. servers_take i)

submit_lost_example :
    (lookup key_of "c" (EvalQueue.read_all (enqueue 9 (submit_of "c") two_entries))
      ≡ some (queued 9 (submit_of "c")))
    × (lookup key_of "c" (
          EvalQueue.read_all (
            interrupted
              (Interleaving.synced "a")
              (Interleaving.submit 9 (submit_of "c"))
              two_entries))
        ≡ none)
unfolding EvalQueue.read_all
submit_lost_example = submit_lost (Interleaving.synced "a") 9 (submit_of "c") two_entries tt refl

-- A submit reads, the drain marks "a" as synced and "b" as failed, and the submit writes.
straddled : Callers.Reach (Callers.SparesEntry "b") (Callers.idle two_entries) (
    Callers.complete (Interleaving.submit 9 (submit_of "c")) (EvalQueue.read_all two_entries) [] (
      Callers.complete
        (Interleaving.rejected "b")
        (EvalQueue.read_all two_entries)
        ((Interleaving.submit 9 (submit_of "c"), EvalQueue.read_all two_entries) ∷ [])
        (Callers.begin
          (Interleaving.rejected "b")
          (Callers.begin (Interleaving.submit 9 (submit_of "c")) (Callers.idle two_entries)))))
unfolding Callers.begin Callers.complete
straddled =
    Callers.next
      (Callers.next
        (Callers.next (Callers.next Callers.here (Callers.begun _ _ tt)) (Callers.begun _ _ tt))
        (Callers.completed
          ((Interleaving.submit 9 (submit_of "c"), EvalQueue.read_all two_entries) ∷ [])
          (Interleaving.rejected "b") _ [] _ refl))
      (Callers.completed [] (Interleaving.submit 9 (submit_of "c")) _ [] _ refl)

Reach-IsQueued_example :
    (status : QueuedEvalStatus) × (lookup key_of "b" (
        EvalQueue.read_all
          (Callers.complete
            (Interleaving.submit 9 (submit_of "c"))
            (EvalQueue.read_all two_entries)
            []
            (Callers.complete
              (Interleaving.rejected "b")
              (EvalQueue.read_all two_entries)
              ((Interleaving.submit 9 (submit_of "c"), EvalQueue.read_all two_entries) ∷ [])
              (Callers.begin (Interleaving.rejected "b") (
                Callers.begin
                  (Interleaving.submit 9 (submit_of "c"))
                  (Callers.idle two_entries))))).store)
      ≡ some (with_status status (entry "b")))
unfolding EvalQueue.read_all
Reach-IsQueued_example = Reach-IsQueued "b" (entry "b") two_entries refl straddled

-- "a" is marked, and then a submit reads and writes.
submitted_after :
    Callers.Reach
      (Callers.SubmitsOther "a")
      (Callers.idle (EvalQueue.mark_synced "a" two_entries))
      (Callers.complete
        (Interleaving.submit 9 (submit_of "c"))
        (EvalQueue.read_all (EvalQueue.mark_synced "a" two_entries))
        []
        (Callers.begin
          (Interleaving.submit 9 (submit_of "c"))
          (Callers.idle (EvalQueue.mark_synced "a" two_entries))))
unfolding Callers.begin Callers.complete
submitted_after =
    Callers.next (Callers.next Callers.here (Callers.begun _ _ refl))
      (Callers.completed [] (Interleaving.submit 9 (submit_of "c")) _ [] _ refl)

Reach-mark_synced_example :
    lookup key_of "a" (
      EvalQueue.read_all
        (Callers.complete
          (Interleaving.submit 9 (submit_of "c"))
          (EvalQueue.read_all (EvalQueue.mark_synced "a" two_entries))
          []
          (Callers.begin
            (Interleaving.submit 9 (submit_of "c"))
            (Callers.idle (EvalQueue.mark_synced "a" two_entries)))).store)
    ≡ none
Reach-mark_synced_example = Reach-mark_synced "a" two_entries submitted_after

accepted-back_example :
    (lookup key_of "a" (EvalQueue.read_all (EvalQueue.mark_synced "a" two_entries)) ≡ none)
    × (lookup key_of "a" (
          EvalQueue.read_all (
            interrupted
              (Interleaving.submit 9 (submit_of "c"))
              (Interleaving.synced "a")
              two_entries))
        ≡ some (entry "a"))
unfolding EvalQueue.read_all
accepted-back_example = accepted-back "a" (entry "a") 9 (submit_of "c") two_entries refl refl

abbrev old_device : Db ℕ
old_device = record { cached = absent; requests = 0; version = 1; stores = ("eval-queue", 8) ∷ [] }

old_device-Reach : Reach 0 old_device (on_success (on_upgrade_needed 0 (open_database old_device)))
unfolding open_database on_upgrade_needed
old_device-Reach =
    next
      (next (next here (call old_device)) (upgrade (open_database old_device) refl (omega arith)))
      (success (on_upgrade_needed 0 (open_database old_device)) refl refl)

opened_example :
    IsComplete 0 (on_success (on_upgrade_needed 0 (open_database old_device))).stores
    × (lookup name_of "eval-queue"
          (on_success (on_upgrade_needed 0 (open_database old_device))).stores
        ≡ some ("eval-queue", 8))
unfolding on_success
opened_example =
    opened-IsComplete 0 "eval-queue" ("eval-queue", 8) (omega arith) refl refl old_device-Reach refl

abbrev empty_queue : EvalQueue.Idb (FormData ℕ)
empty_queue = record { queue = none; changes = 0; in_window = true; sync = granted; tags = [] }

abbrev payload : EvaluatePayload ℕ
payload = record { team_id = 1; activity_id = 2; result_data = none; idempotency_key = "a" }

abbrev no_answer : Failure ℕ
no_answer = network_timeout

lost_submit_example :
    lookup key_of "a" (
      EvalQueue.read_all
        (sync_now 0
          (some true)
          (λ r. r.team_id == 7)
          (λ i. [])
          (mutation_fn {A = Unit {0}} none 5 payload (rejected no_answer) empty_queue).1).0)
    ≡ some (with_status failed (queued 5 (to_queue payload)))
unfolding EvalQueue.read_all request_of Submit.is_network_error Submit.mutation_fn Submit.on_failure
    EvalQueue.write_all enqueue EvalQueue.request_background_sync
lost_submit_example =
    lost_submit-syncs 0 none 5 payload no_answer empty_queue (λ r. r.team_id == 7) (λ i. []) refl tt
      refl tt
