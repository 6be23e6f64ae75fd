-- ===== src/Pwa/Rotation.antt =====
-- A rotated push subscription: `pushsubscriptionchange` in web-rally/src/sw.ts,
-- `takePendingSubscription` and `clearPendingSubscription` of web-rally/src/lib/pushSubscription.ts,
-- and web-rally/src/hooks/useRotatedPushSync.ts. `S` is the type of subscriptions, `K` that of the
-- server's keys.
pub mod Handover
use platform_rally_extension.Base.{
  ℕ, zero, suc, String, Bool, true, false, if◌then◌else◌, ◌==◌, Same-text, Option, none, some, List,
  [], ◌∷◌, ◌++◌,
}

-- `JSON.stringify(s.toJSON())`, and `json()` of a stored response, which is none where it throws.
pub record SubscriptionJson (S : Type 0) : Type 0 where
  pub stringify : S → String
  pub parse : String → Option S

-- `pending` is the parked response; `current` the last subscription that the worker came to hold. A
-- call of `sync` reads the parked one (`taken`), sends it (`syncing`), and once it is accepted deletes
-- what is parked then; `clearing` counts the calls that are still to delete. `server` are the accepted
-- subscriptions, the last one first; `posted` the messages to each window that is open.
pub record Rotation (S : Type 0) : Type 0 where
  pub pending : Option String
  pub current : Option S
  pub taken : List S
  pub syncing : List S
  pub clearing : ℕ
  pub server : List S
  pub posted : List String

abbrev pub messages : ℕ → String → List String
messages zero m = []
messages (suc n) m = m ∷ messages n m

module _ {S : Type 0} (json : SubscriptionJson S) where
  -- The rest of the handler, from `caches.open`; `windows` are the open windows.
  abbrev pub park : ℕ → S → Rotation S → Rotation S
  park windows s r = record r {
    pending = some (json.stringify s);
    current = some s;
    posted = r.posted ++ messages windows "PUSH_SUBSCRIPTION_CHANGED";
  }

  -- `subscribe` is `pushManager.subscribe` with a key; a rejection ends the handler.
  abbrev pub park_result : ℕ → Option S → Rotation S → Rotation S
  park_result windows none r = r
  park_result windows (some s) r = park windows s r

  abbrev pub resubscribed : {K : Type 0} → (K → Option S) → Option K → Option S
  resubscribed subscribe none = none
  resubscribed subscribe (some key) = subscribe key

  abbrev pub or_resubscribe : {K : Type 0} → Option S → (K → Option S) → Option K → Option S
  or_resubscribe none subscribe old_key = resubscribed subscribe old_key
  or_resubscribe (some s) subscribe old_key = some s

  -- `old_key` is `oldSubscription?.options?.applicationServerKey`.
  unfoldable pub on_subscription_change :
      {K : Type 0} → Option S → Option K → (K → Option S) → ℕ → Rotation S → Rotation S
  on_subscription_change new old_key subscribe windows r =
      park_result windows (or_resubscribe new subscribe old_key) r

  abbrev pub parsed : Option String → Option S
  parsed none = none
  parsed (some text) = json.parse text

  -- `supported` is `globalThis.caches !== undefined`.
  unfoldable pub take_pending_subscription : Bool → Rotation S → Option S
  take_pending_subscription supported r = if supported then parsed r.pending else none

  unfoldable pub clear_pending_subscription : Bool → Rotation S → Rotation S
  clear_pending_subscription supported r = record r {
    pending = if supported then none else r.pending;
  }

  abbrev pub took : Option S → Rotation S → Rotation S
  took none r = r
  took (some s) r = record r { taken = r.taken ++ s ∷ [] }

  -- `sync`, up to the read of the cache.
  unfoldable pub start_sync : Bool → Rotation S → Rotation S
  start_sync supported r = took (take_pending_subscription supported r) r

  -- The part of a `sync` that read `s`, up to the `await` of the request; `others` are what the other
  -- calls read, and `cancelled` is whether the hook was unmounted.
  unfoldable pub send : Bool → S → List S → Rotation S → Rotation S
  send cancelled s others r =
      if cancelled
      then record r { taken = others }
      else record r { taken = others; syncing = r.syncing ++ s ∷ [] }

  -- The request for `s` is accepted; `others` are the requests that are still waiting.
  unfoldable pub sync_accepted : S → List S → Rotation S → Rotation S
  sync_accepted s others r = record r {
    syncing = others;
    server = s ∷ r.server;
    clearing = suc r.clearing;
  }

  -- The end of a `sync` whose request was accepted; `waiting` of the others are still to delete.
  unfoldable pub end_sync : Bool → ℕ → Rotation S → Rotation S
  end_sync supported waiting r =
      clear_pending_subscription supported (record r { clearing = waiting })

  unfoldable pub sync_rejected : List S → Rotation S → Rotation S
  sync_rejected others r = record r { syncing = others }

  -- The listener for the worker's messages, and the one for a page that becomes visible.
  unfoldable pub on_sw_message : Bool → Option String → Rotation S → Rotation S
  on_sw_message supported none r = r
  on_sw_message supported (some type) r =
      if type == "PUSH_SUBSCRIPTION_CHANGED" then start_sync supported r else r

  unfoldable pub on_visible : Bool → Bool → Rotation S → Rotation S
  on_visible supported visible r = if visible then start_sync supported r else r
