-- ===== src/Pwa/Notifications.antt =====
-- The `push` and `notificationclick` handlers of web-rally/src/sw.ts. `includes` of strings is the
-- record `Text`.
pub mod Opening
use platform_rally_extension.Base.{
  String, ◌+◌, ℕ, Bool, true, false, ◌&&◌, ◌||◌, not, if◌then◌else◌, ◌==◌, Same-text, Same-nat,
  Option, none, some, get_or, List, [], ◌∷◌, ◌++◌, any, find,
}
use platform_rally_extension.Pwa.Badge.{Numerals, Device, bump_app_badge}

pub record Text : Type 0 where
  pub includes : String → String → Bool

abbrev pub base : String
base = "/rally/"

pub record RallyPushPayload : Type 0 where
  pub title : Option String
  pub body : Option String
  pub url : Option String

-- `event.data`: absent, JSON, or a text that `json()` throws on.
pub data PushData : Type 0 where
  no_data : PushData
  json : RallyPushPayload → PushData
  plain : String → PushData

abbrev pub payload_of : PushData → RallyPushPayload
payload_of no_data = record { title = none; body = none; url = none }
payload_of (json payload) = payload
payload_of (plain text) = record { title = none; body = some text; url = none }

-- The arguments of `showNotification`, less its constant options.
pub record Notification : Type 0 where
  pub title : String
  pub body : String
  pub url : String
  pub tag : String

abbrev pub notification_of : RallyPushPayload → Notification
notification_of payload =
    let url = get_or payload.url base in
    record {
      title = get_or payload.title "Rally Tascas";
      body = get_or payload.body "";
      url = url;
      tag = url;
    }

-- What the handlers ask the browser for.
pub data Call : Type 0 where
  show_notification close_notification : Notification → Call
  focus open_window : String → Call

-- The URLs of the windows that `matchAll` lists, the badge, and the calls made.
pub record Browser : Type 0 where
  pub windows : List String
  pub device : Device
  pub calls : List Call

abbrev pub calling : Call → Browser → Browser
calling c b = record b { calls = b.calls ++ c ∷ [] }

-- Of the two promises that are started together, the notification's is the first.
unfoldable pub on_push : Numerals → PushData → Browser → Browser
on_push numerals event_data b = record b {
  device = bump_app_badge numerals b.device;
  calls = b.calls ++ show_notification (notification_of (payload_of event_data)) ∷ [];
}

-- The window that shows the URL already, or else a new one.
abbrev pub bring : Option String → String → Browser → Browser
bring none url b = calling (open_window url) b
bring (some existing) url b = calling (focus existing) b

-- `event.action`, the empty string for a tap on the body, ends the handler unless it is "open".
abbrev pub is_dismissal : String → Bool
is_dismissal action = not (action == "") && not (action == "open")

unfoldable pub on_notification_click : Text → String → Notification → Browser → Browser
on_notification_click strings action n b =
    let b' = calling (close_notification n) b in
    if is_dismissal action
    then b'
    else bring (find (λ w. strings.includes w n.url) b'.windows) n.url b'
