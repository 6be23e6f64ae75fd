-- ===== src/Auth/Bridge/Redirect.antt =====
-- The guard against several redirects, and what the effect does with the session.
use platform_rally_extension.Base.{
  ◌+◌, ◌≤◌, ◌≡◌, String, refl, Bool, false, ◌&&◌, ◌||◌, not, if◌then◌else◌, Option, none, some,
  arith,
}
use platform_rally_extension.Auth.Storage.{Storage}
use platform_rally_extension.Auth.Resume.{Json}
use platform_rally_extension.Auth.Staff.{Config, UserState, set_session, clear_session}
use platform_rally_extension.Auth.Bridge.{
  User, Auth, sync_user, sync_session, Bridge, mounted, handle_unauthorized, redirect,
  on_authenticated, Step, unauthorized, cancelled, signed_out, Reach, here, next,
}

-- While a 401 is handled there is one call of the handler, waiting or redirected, and else none.
pub record IsSingle (b : Bridge) : Type 0 where
  pub handled : b.cancelling + b.redirects ≡ (if b.is_handling_401 then 1 else 0)
  pub same : b.cleared ≡ b.redirects

Step-IsSingle : {json : Json} {b c : Bridge} → Step json b c → IsSingle b → IsSingle c
unfolding handle_unauthorized redirect on_authenticated
Step-IsSingle (unauthorized b) s = ground arith
Step-IsSingle (cancelled now return_url waiting b e) s = ground arith
Step-IsSingle (signed_out config auth b) s = ground arith

Reach-step : {json : Json} {b c : Bridge} → IsSingle b → Reach json b c → IsSingle c
Reach-step s here = s
Reach-step s (next r st) = Step-IsSingle st (Reach-step s r)

-- However many requests fail with 401, and whenever the calls of the handler go on, until the user
-- is signed in again there is at most one redirect, with one clearing of the query cache.
pub Reach-IsSingle :
    {json : Json} (user : UserState) (storage : Storage) {b : Bridge}
    → Reach json (mounted user storage) b
    → (b.redirects ≤ 1) × (b.cleared ≡ b.redirects)
Reach-IsSingle user storage r =
    let s = Reach-step (record { handled = omega arith; same = refl }) r in ground arith

abbrev pub is_live : Option User → Bool
is_live none = false
is_live (some user) = not user.expired

abbrev pub live_token : Option User → Option String
live_token none = none
live_token (some user) = if user.expired then none else some user.access_token

sync_user-resolves :
    (config : Config) (auth : Auth) (o : Option User) (state : UserState)
    → (auth.is_loading || auth.active_navigator) ≡ false
    → (is_live o && not auth.is_authenticated) ≡ false
    → ((sync_user config auth o state).session_loading ≡ false)
      × ((sync_user config auth o state).token ≡ live_token o)
unfolding set_session clear_session
sync_user-resolves config auth none state idle sure = ground arith
sync_user-resolves config auth (some user) state idle sure = ground arith

-- Once the provider is idle, and does not hold a live user that it calls unauthenticated, the effect
-- ends the loading whatever was there: with the token of a live user, and with no session where the
-- user is gone or expired.
pub sync_session-resolves :
    (config : Config) (auth : Auth) (state : UserState)
    → (auth.is_loading || auth.active_navigator) ≡ false
    → (is_live auth.user && not auth.is_authenticated) ≡ false
    → ((sync_session config auth state).session_loading ≡ false)
      × ((sync_session config auth state).token ≡ live_token auth.user)
unfolding sync_session
sync_session-resolves config auth state idle sure =
    sync_user-resolves config auth auth.user state idle sure
