-- ===== src/Pwa/Subscription.antt =====
-- web-rally/src/hooks/usePushNotifications.ts and `isPushSupported` of
-- web-rally/src/lib/pushSubscription.ts: the push subscription of this device. A call that rejects
-- is `none`; the endpoints stand for the subscriptions.
pub mod Outcome
use platform_rally_extension.Base.{
  String, Bool, true, false, ◌&&◌, ◌||◌, not, if◌then◌else◌, ◌==◌, Same-text, Option, none, some,
  List, [], ◌∷◌, filter,
}

pub data PushStatus : Type 0 where
  unsupported unconfigured denied unsubscribed subscribed : PushStatus

pub data Permission : Type 0 where
  granted_permission denied_permission default_permission : Permission

-- What the browser has: the three interfaces, whether the user agent is that of an iOS device, and
-- the two signs of an installed app.
pub record Features : Type 0 where
  pub service_worker : Bool
  pub push_manager : Bool
  pub notification : Bool
  pub is_ios : Bool
  pub standalone_mode : Bool
  pub standalone : Bool

unfoldable pub is_push_supported : Features → Bool
is_push_supported f =
    if not f.service_worker || not f.push_manager || not f.notification
    then false
    else if not f.is_ios
    then true
    else f.standalone_mode || f.standalone

-- The hook's state, the browser's permission and subscription, and the endpoints that the server
-- sends to.
pub record Push : Type 0 where
  pub status : PushStatus
  pub loading : Bool
  pub permission : Permission
  pub subscription : Option String
  pub server : List String

abbrev pub mounted : Permission → Option String → List String → Push
mounted permission subscription server = record {
  status = unsubscribed;
  loading = false;
  permission = permission;
  subscription = subscription;
  server = server;
}

-- A key that is there and not empty.
abbrev pub usable_key : Option String → Bool
usable_key none = false
usable_key (some key) = not (key == "")

abbrev pub status_unless : Bool → PushStatus → Push → Push
status_unless cancelled status p = if cancelled then p else record p { status = status }

abbrev pub is_denied : Permission → Bool
is_denied denied_permission = true
is_denied _ = false

abbrev pub status_of : Option String → PushStatus
status_of none = unsubscribed
status_of (some endpoint) = subscribed

abbrev pub resolved : Bool → Option (Option String) → Push → Push
resolved cancelled none p = p
resolved cancelled (some key) p =
    if not (usable_key key)
    then status_unless cancelled unconfigured p
    else if is_denied p.permission
    then status_unless cancelled denied p
    else status_unless cancelled (status_of p.subscription) p

-- `resolveStatus`; `key` is the answer of `getVapidPublicKey`, `cancelled` whether the hook is
-- unmounted by then.
unfoldable pub resolve_status : Features → Option (Option String) → Bool → Push → Push
resolve_status features key cancelled p =
    if not (is_push_supported features)
    then record p { status = unsupported }
    else resolved cancelled key p

-- What the calls of `subscribe` bring, each once it is made: the key, the user's decision, the
-- browser's subscription, and whether the server accepts it.
pub record Answers : Type 0 where
  pub key : Option (Option String)
  pub decision : Permission
  pub endpoint : Option String
  pub registers : Bool

abbrev pub registered : Option String → Bool → Push → Push
registered none registers p = p
registered (some endpoint) registers p =
    let p' = record p { subscription = some endpoint } in
    if registers then record p' { server = endpoint ∷ p.server; status = subscribed } else p'

abbrev pub asked : Permission → Answers → Push → Push
asked granted_permission a p =
    registered a.endpoint a.registers (record p { permission = granted_permission })
asked decision a p = record p { permission = decision; status = denied }

abbrev pub with_key : Option (Option String) → Answers → Push → Push
with_key none a p = p
with_key (some key) a p =
    if usable_key key then asked a.decision a p else record p { status = unconfigured }

-- `subscribe`; the `finally` is run in every case.
unfoldable pub subscribe : Answers → Push → Push
subscribe a p =
    let p' = with_key a.key a (record p { loading = true }) in record p' { loading = false }

abbrev pub removed : Option String → Bool → Bool → Push → Push
removed none unregisters unsubscribes p = record p { status = unsubscribed }
removed (some endpoint) unregisters unsubscribes p =
    if unregisters
    then (let p' = record p { server = filter (λ e. not (e == endpoint)) p.server } in
        if unsubscribes then record p' { subscription = none; status = unsubscribed } else p')
    else p

-- `unsubscribe`: whether the server accepts, and whether the browser's own `unsubscribe` resolves.
unfoldable pub unsubscribe : Bool → Bool → Push → Push
unsubscribe unregisters unsubscribes p =
    let p' = removed p.subscription unregisters unsubscribes (record p { loading = true }) in
    record p' { loading = false }
