-- ===== src/Auth/TeamSession.antt =====
-- web-rally/src/stores/useTeamAuthStore.ts and `refreshTeamToken` of services/client.ts: the team's
-- session, in the store that components read and in `localStorage`. Sentry is left out.
pub mod InSync
use platform_rally_extension.Base.{
  ℕ, String, ◌≢◌, Bool, true, false, ◌&&◌, ◌||◌, if◌then◌else◌, ◌==◌, Same-nat, Option, none, some,
  get_or,
}
use platform_rally_extension.Auth.Storage.{
  Storage, Codec, get_team_token, set_team_token, get_team_data, set_team_data, has_team_data,
  clear_team_auth, clear_all_auth, is_there, non_empty,
}

pub record TeamAuthState (D : Type 0) : Type 0 where
  pub is_authenticated : Bool
  pub team_data : Option D
  pub is_loading_auth : Bool

pub record World (D : Type 0) : Type 0 where
  pub storage : Storage
  pub auth : TeamAuthState D

-- What the refresh request comes to: no answer or one that is no JSON object, a status that is not a
-- success, or the `access_token` of the answer, if it has one.
pub data Answer : Type 0 where
  unreachable : Answer
  refused : ℕ → Answer
  renewed : Option String → Answer

module _ {D : Type 0} where
  abbrev pub signed_out : TeamAuthState D
  signed_out = record { is_authenticated = false; team_data = none; is_loading_auth = false }

  abbrev pub signed_in : D → TeamAuthState D
  signed_in d = record { is_authenticated = true; team_data = some d; is_loading_auth = false }

  unfoldable pub clear_auth : World D → World D
  clear_auth w = record { storage = clear_team_auth w.storage; auth = signed_out }

  -- `logout` of useUserStore.ts, as far as the team's session goes: the storage is cleared, and the
  -- team's store is not touched.
  unfoldable pub user_logout : World D → World D
  user_logout w = record w { storage = clear_all_auth w.storage }

  -- `linkNow` of pages/team-info/index.tsx when the account is linked, up to the reload it asks for.
  unfoldable pub link_now : World D → World D
  link_now w = record w { storage = clear_team_auth w.storage }

module _ {D : Type 0} (json : Codec D) where
  unfoldable pub set_auth : D → String → World D → World D
  set_auth d token w = record {
    storage = set_team_data json d (set_team_token token w.storage);
    auth = signed_in d;
  }

  abbrev pub hydrated : Option String → Option D → World D → World D
  hydrated (some token) (some d) w = record w { auth = signed_in d }
  hydrated (some token) none w = record {
    storage = if has_team_data w.storage then clear_team_auth w.storage else w.storage;
    auth = signed_out;
  }
  hydrated none d w = record w { auth = signed_out }

  unfoldable pub hydrate_team_auth_store : World D → World D
  hydrate_team_auth_store w =
      hydrated (non_empty (get_team_token w.storage)) (get_team_data json w.storage) w

  -- `refreshTeamToken` from its answer on, in the world that the answer meets: its result, and what it
  -- leaves. A token that is `undefined` is stored as that text.
  abbrev pub on_answer : Answer → World D → Option String × World D
  on_answer unreachable w = (none, w)
  on_answer (refused status) w =
      let lost = clear_auth (record w { storage = clear_team_auth w.storage }) in
      (none, if (status == 401) || (status == 403) then lost else w)
  on_answer (renewed token) w = (
    token,
    hydrate_team_auth_store
        (record w { storage = set_team_token (get_or token "undefined") w.storage }),
  )

  abbrev pub refreshed : Option String → Answer → World D → Option String × World D
  refreshed none answer w = (none, w)
  refreshed (some token) answer w = on_answer answer w

  -- It reads the token in the world `start`, and gets its answer in the world `w`, which other code can
  -- have made of it in the meantime.
  unfoldable pub refresh_team_token : Answer → World D → World D → Option String × World D
  refresh_team_token answer start w = refreshed (non_empty (get_team_token start.storage)) answer w

-- The calls that change a team's session while the application runs; a refresh may have been started
-- in any world. The server's tokens are not empty.
pub data Step {D : Type 0} (json : Codec D) : World D → World D → Type 0 where
  sign_in :
      (d : D) (token : String) (w : World D) → token ≢ "" → Step json w (set_auth json d token w)
  sign_out : (w : World D) → Step json w (clear_auth w)
  hydrate : (w : World D) → Step json w (hydrate_team_auth_store json w)
  user_sign_out : (w : World D) → Step json w (user_logout w)
  linked : (w : World D) → Step json w (link_now w)
  refresh :
      (answer : Answer) (start w : World D) → Step json w (refresh_team_token json answer start w).1

pub data Reach {D : Type 0} (json : Codec D) (s : World D) : World D → Type 0 where
  here : Reach json s s
  next : {t u : World D} → Reach json s t → Step json t u → Reach json s u
