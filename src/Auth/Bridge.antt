-- ===== src/Auth/Bridge.antt =====
-- web-rally/src/auth/useAuthSync.ts and the handler that services/client.ts keeps: the session of
-- the identity provider's library in the user store, and the redirect after a 401. The provider's
-- `useAuth()` is the record `Auth`.
pub mod Redirect
use platform_rally_extension.Base.{
  ℕ, suc, ◌+◌, ◌≡◌, String, Bool, true, false, ◌&&◌, ◌||◌, not, if◌then◌else◌, Option, none, some,
  List, [], ◌∷◌,
}
use platform_rally_extension.Auth.Storage.{Storage}
use platform_rally_extension.Auth.Resume.{Json, default_ttl_ms, set_resume_value}
use platform_rally_extension.Auth.Staff.{
  Config, Profile, profile_to_user, UserState, initial_user, set_session, clear_session,
}

pub record User : Type 0 where
  pub access_token : String
  pub expired : Bool
  pub profile : Profile

pub record Auth : Type 0 where
  pub is_authenticated : Bool
  pub user : Option User
  pub is_loading : Bool
  pub active_navigator : Bool

-- The part of the effect after its first `if`.
abbrev pub unless_pending : Auth → Bool → UserState → UserState
unless_pending auth alive state =
    if auth.is_loading || auth.active_navigator
    then state
    else if alive
    then state
    else clear_session state

-- The effect that follows each change of the provider's session.
abbrev pub sync_user : Config → Auth → Option User → UserState → UserState
sync_user config auth none state = unless_pending auth false state
sync_user config auth (some user) state =
    if auth.is_authenticated && not user.expired
    then set_session user.access_token (profile_to_user config user.profile) state
    else unless_pending auth (not user.expired) state

unfoldable pub sync_session : Config → Auth → UserState → UserState
sync_session config auth state = sync_user config auth auth.user state

-- `cancelling` counts the calls of the handler that wait for `cancelQueries`; `redirects` the calls
-- of `signinRedirect`, and `cleared` those of the query cache's `clear`.
pub record Bridge : Type 0 where
  pub is_handling_401 : Bool
  pub cancelling : ℕ
  pub cleared : ℕ
  pub redirects : ℕ
  pub user : UserState
  pub storage : Storage

abbrev pub mounted : UserState → Storage → Bridge
mounted user storage = record {
  is_handling_401 = false;
  cancelling = 0;
  cleared = 0;
  redirects = 0;
  user = user;
  storage = storage;
}

-- `handleUnauthorized`, up to its first `await`.
unfoldable pub handle_unauthorized : Bridge → Bridge
handle_unauthorized b =
    if b.is_handling_401
    then b
    else record b { is_handling_401 = true; cancelling = b.cancelling + 1 }

-- What follows that `await`, for one of the calls that wait; `waiting` is how many others do.
unfoldable pub redirect : Json → ℕ → String → ℕ → Bridge → Bridge
redirect json now return_url waiting b = record b {
  cancelling = waiting;
  cleared = b.cleared + 1;
  user = clear_session b.user;
  storage = set_resume_value json now "rally_auth_return_url" return_url default_ttl_ms b.storage;
  redirects = b.redirects + 1;
}

-- The effect that resets the guard.
unfoldable pub on_authenticated : Bool → Bridge → Bridge
on_authenticated is_authenticated b =
    if is_authenticated then record b { is_handling_401 = false } else b

-- What can happen while nobody is signed in: requests fail with 401, waiting calls go on, and the
-- provider's state changes.
pub data Step (json : Json) : Bridge → Bridge → Type 0 where
  unauthorized : (b : Bridge) → Step json b (handle_unauthorized b)
  cancelled :
      (now : ℕ) (return_url : String) (waiting : ℕ) (b : Bridge)
      → b.cancelling ≡ suc waiting
      → Step json b (redirect json now return_url waiting b)
  signed_out :
      (config : Config) (auth : Auth) (b : Bridge)
      → Step json b (on_authenticated false (record b { user = sync_session config auth b.user }))

pub data Reach (json : Json) (s : Bridge) : Bridge → Type 0 where
  here : Reach json s s
  next : {t u : Bridge} → Reach json s t → Step json t u → Reach json s u
