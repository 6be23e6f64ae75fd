-- ===== src/Offline/Db.antt =====
-- web-rally/src/offline/db.ts: the shared handle on the database of the two queues. IndexedDB is the
-- browser's: it decides which handler of the open request runs, within the rules that `Step` states.
pub mod Opening
use platform_rally_extension.Base.{
  ℕ, suc, String, ◌<◌, ◌≡◌, Option, none, some, List, [], ◌∷◌, ◌++◌, if◌then◌else◌, ◌==◌, Same-text,
}
use platform_rally_extension.Base.Keyed.{has}

abbrev pub db_version : ℕ
db_version = 2

abbrev pub eval_store_name : String
eval_store_name = "eval-queue"

abbrev pub arrival_store_name : String
arrival_store_name = "arrival-queue"

abbrev pub store_names : List String
store_names = eval_store_name ∷ arrival_store_name ∷ []

-- `dbPromise`: `undefined`, not settled yet, or fulfilled.
pub data Cached : Type 0 where
  absent opening opened : Cached

-- An object store: its name and its content.
abbrev pub Store : Type 0 → Type 0
Store T = String × T

-- `requests` counts the calls of `indexedDB.open`; `version` and `stores` are the database's.
pub record Db (T : Type 0) : Type 0 where
  pub cached : Cached
  pub requests : ℕ
  pub version : ℕ
  pub stores : List (Store T)

module _ {T : Type 0} where
  abbrev pub name_of : Store T → String
  name_of s = s.0

  -- `openDatabase()`, up to the return of the promise.
  unfoldable pub open_database : Db T → Db T
  open_database d = elim d.cached [
    | absent ↦ record d { cached = opening; requests = suc d.requests }
    | _ ↦ d
  ]

  -- `createObjectStore` makes an empty store.
  unfoldable pub create_missing : T → List String → List (Store T) → List (Store T)
  create_missing empty [] stores = stores
  create_missing empty (name ∷ names) stores =
      create_missing empty names
        (if has name_of name stores then stores else stores ++ (name, empty) ∷ [])

  -- `request.onupgradeneeded`; the transaction also sets the version that was asked for.
  unfoldable pub on_upgrade_needed : T → Db T → Db T
  on_upgrade_needed empty d = record d {
    version = db_version;
    stores = create_missing empty store_names d.stores;
  }

  -- `request.onsuccess`
  unfoldable pub on_success : Db T → Db T
  on_success d = record d { cached = opened }

  -- `request.onerror`: the promise is rejected, and its `catch` forgets it.
  unfoldable pub on_error : Db T → Db T
  on_error d = record d { cached = absent }

  -- `request.onblocked`
  unfoldable pub on_blocked : Db T → Db T
  on_blocked d = record d { cached = absent }

-- What can happen to the handle: any caller may ask for the database at any time; the handlers run
-- for an open request, the upgrade only below the version asked for, and success only at it.
pub data Step {T : Type 0} (empty : T) : Db T → Db T → Type 0 where
  call : (d : Db T) → Step empty d (open_database d)
  upgrade :
      (d : Db T)
      → d.cached ≡ opening
      → d.version < db_version
      → Step empty d (on_upgrade_needed empty d)
  success : (d : Db T) → d.cached ≡ opening → d.version ≡ db_version → Step empty d (on_success d)
  fail : (d : Db T) → d.cached ≡ opening → Step empty d (on_error d)
  block : (d : Db T) → d.cached ≡ opening → d.version < db_version → Step empty d (on_blocked d)

pub data Reach {T : Type 0} (empty : T) (s : Db T) : Db T → Type 0 where
  here : Reach empty s s
  next : {t u : Db T} → Reach empty s t → Step empty t u → Reach empty s u
