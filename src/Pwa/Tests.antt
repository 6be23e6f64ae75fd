-- ===== src/Pwa/Tests.antt =====
-- The worker and the push subscription at concrete events.
use Prim.Native.Nat.{zero, suc}
use platform_rally_extension.Base.{
  ℕ, String, ◌≡◌, ◌≢◌, ◌⊎◌, refl, ap, true, false, ◌==◌, Same-text, Option, none, some, List, [],
  ◌∷◌, ◌++◌, map, length, ◌%◌, arith, any, if◌then◌else◌,
}
use platform_rally_extension.Pwa.Badge.{Numerals, Api, Device, read_badge_count}
use platform_rally_extension.Pwa.Badge.Counter.{
  Event, pushed, message, focused, Counter, counted_all, handle_all, Shows, handle_all-refines,
  documented, is_focus, handle_all-never_shown,
}
use platform_rally_extension.Pwa.Notifications.{
  Text, Browser, Call, show_notification, close_notification, plain, notification_of, payload_of,
  on_push, on_notification_click,
}
use platform_rally_extension.Pwa.Notifications.Opening.{Lands, on_push-click}
use platform_rally_extension.Pwa.Rotation.{
  SubscriptionJson, Rotation, on_subscription_change, take_pending_subscription, start_sync, send,
  sync_accepted, end_sync, parsed,
}
use platform_rally_extension.Pwa.Rotation.Handover.{
  rotated, started, sent, accepted, ended, at_rest, Reach, here, next, first, Reach-IsKept,
  rotation_lost,
}
use platform_rally_extension.Pwa.Subscription.{
  Push, mounted, granted_permission, default_permission, Answers, subscribed, subscribe,
}
use platform_rally_extension.Pwa.Subscription.Outcome.{Delivers, subscribe_lem}
use platform_rally_extension.Pwa.KeyBytes.{
  fill, to_base64, url_base64_to_uint8_array, byte, url_base64_to_uint8_array-ends,
}

-- Unary numerals, which stand for the decimal ones.
abbrev strokes : ℕ → String
strokes zero = String.[]
strokes (suc n) = String.◌∷◌ "|" (strokes n)

abbrev strokes_in : String → ℕ
strokes_in String.[] = zero
strokes_in (String.◌∷◌ c s) = suc (strokes_in s)

abbrev unary : Numerals
unary = record { to_string = strokes; to_number = λ s. some (strokes_in s) }

strokes_in-strokes : (n : ℕ) → some (strokes_in (strokes n)) ≡ some n
strokes_in-strokes n = ap some (back n)
  where
    back : (n : ℕ) → strokes_in (strokes n) ≡ n
    back zero = refl
    back (suc n) = ap suc (back n)

abbrev phone : Device
phone = record { cached = none; icon = 0; api = documented }

abbrev zero_counter : Counter
zero_counter = record { count = 0; shown = 0 }

abbrev everywhere : Api
everywhere = record {
  page_sets = true;
  page_clears = true;
  worker_sets = true;
  worker_clears = true;
}

abbrev full_phone : Device
full_phone = record phone { api = everywhere }

full_phone-Shows : Shows unary everywhere zero_counter full_phone
unfolding read_badge_count
full_phone-Shows = record { counts = refl; shows = refl; has = refl }

abbrev events : List Event
events = pushed ∷ pushed ∷ focused true ∷ pushed ∷ message (some "skipWaiting") ∷ []

handle_all-refines_example :
    (read_badge_count unary (handle_all unary events full_phone)
      ≡ (counted_all everywhere events zero_counter).count)
    × ((handle_all unary events full_phone).icon
        ≡ (counted_all everywhere events zero_counter).shown)
handle_all-refines_example =
    handle_all-refines unary strokes_in-strokes everywhere events zero_counter full_phone
      full_phone-Shows

-- Three pushes, and the icon still shows none.
never_shown_example :
    (handle_all unary (pushed ∷ pushed ∷ pushed ∷ []) phone).icon
    ≡ (if any is_focus (pushed ∷ pushed ∷ pushed ∷ []) then 0 else 0)
never_shown_example = handle_all-never_shown unary (pushed ∷ pushed ∷ pushed ∷ []) phone refl

abbrev equal_urls : Text
equal_urls = record { includes = λ v w. v == w }

abbrev browser : Browser
browser = record { windows = "/rally/" ∷ "/rally/admin" ∷ []; device = phone; calls = [] }

on_push-click_example :
    let n = notification_of (payload_of (plain "Olá")) in
    (c : Call) × Lands equal_urls browser.windows n.url c
    × ((on_notification_click equal_urls "open" n (on_push unary (plain "Olá") browser)).calls
        ≡ ((browser.calls ++ show_notification n ∷ []) ++ close_notification n ∷ []) ++ c ∷ [])
on_push-click_example = on_push-click unary equal_urls (plain "Olá") "open" browser refl

abbrev plain_json : SubscriptionJson String
plain_json = record { stringify = λ s. s; parse = λ s. some s }

abbrev nothing_parked : Rotation String
nothing_parked = at_rest plain_json []

abbrev parked_one : Rotation String
parked_one = record nothing_parked { pending = some "one"; current = some "one" }

abbrev by_key : String → Option String
by_key k = some k

-- A rotation, and a `sync` whose request is accepted.
rotated-Reach :
    let r = on_subscription_change plain_json none (some "one") by_key 2 nothing_parked in
    Reach plain_json by_key nothing_parked (
      end_sync plain_json true 0 (
        sync_accepted plain_json "one" []
          (send plain_json false "one" [] (start_sync plain_json true r))))
unfolding start_sync send sync_accepted on_subscription_change take_pending_subscription
rotated-Reach =
    next
      (next
        (next
          (next (next here (rotated none (some "one") 2 nothing_parked refl refl refl)) (started _))
          (sent false [] "one" [] _ refl))
        (accepted [] "one" [] _ refl))
      (ended 0 _ refl)

Reach-IsKept_example :
    let r = on_subscription_change plain_json none (some "one") by_key 2 nothing_parked in
    let t = end_sync plain_json true 0 (
      sync_accepted plain_json "one" []
        (send plain_json false "one" [] (start_sync plain_json true r))) in
    (parsed plain_json t.pending ≡ t.current)
    ⊎ ((t.pending ≡ none) × (first plain_json t.server ≡ t.current))
Reach-IsKept_example = Reach-IsKept plain_json by_key [] (λ s. refl) rotated-Reach

rotation_lost_example :
    let r₁ =
      on_subscription_change plain_json
        (some "two")
        (some "key")
        by_key
        1
        (send plain_json false "one" [] (start_sync plain_json true parked_one)) in
    let r₂ = end_sync plain_json true 0 (sync_accepted plain_json "one" [] r₁) in
    ((start_sync plain_json true parked_one).taken ≡ "one" ∷ [])
    × (parsed plain_json r₁.pending ≡ some "two")
    × (r₁.syncing ≡ "one" ∷ [])
    × (r₂.current ≡ some "two")
    × (r₂.pending ≡ none)
    × (first plain_json r₂.server ≡ some "one")
rotation_lost_example =
    rotation_lost plain_json by_key (some "key") 1 "one" "two" parked_one refl refl refl

abbrev off : Push
off = mounted default_permission none []

abbrev accepting : Answers
accepting = record {
  key = some (some "key");
  decision = granted_permission;
  endpoint = some "https://push/1";
  registers = true;
}

subscribe_example :
    ((subscribe accepting off).loading ≡ false)
    × (((subscribe accepting off).status ≢ subscribed) ⊎ Delivers (subscribe accepting off))
subscribe_example = subscribe_lem accepting off (λ e. cc e)

-- The code units in place of the decoded ones.
key_example :
    (url_base64_to_uint8_array (λ s. s) 4 (66 ∷ 45 ∷ 95 ∷ [])
      ≡ some (map byte (to_base64 (66 ∷ 45 ∷ 95 ∷ []))))
    × (length (to_base64 (66 ∷ 45 ∷ 95 ∷ [])) % 4 ≡ 0)
unfolding to_base64
key_example = url_base64_to_uint8_array-ends (λ s. s) 4 (66 ∷ 45 ∷ 95 ∷ []) (omega arith)

key_run : url_base64_to_uint8_array (λ s. s) 4 (66 ∷ 45 ∷ 95 ∷ []) ≡ some (66 ∷ 43 ∷ 47 ∷ 61 ∷ [])
unfolding url_base64_to_uint8_array to_base64 fill
key_run = refl
