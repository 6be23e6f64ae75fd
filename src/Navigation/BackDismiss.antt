-- ===== src/Navigation/BackDismiss.antt =====
-- web-rally/src/hooks/useBackDismiss.ts: the overlays that the system's back gesture closes. The
-- history is the list of its entries, the current one first, each with the overlay's id in its state;
-- a traversal and its `popstate` are done before anything else.
pub mod Nested
use platform_rally_extension.Base.{
  ℕ, suc, ◌+◌, Bool, true, false, ◌&&◌, not, if◌then◌else◌, ◌==◌, Same-nat, Option, none, some,
  List, [], ◌∷◌, ◌++◌, map, filter, find,
}

-- An open overlay, and `entryLive`.
pub record Overlay : Type 0 where
  pub id : ℕ
  pub entry_live : Bool

-- `overlays` in the order in which they were opened; `dismissed` has the ids whose `onDismiss` was
-- called, in order; `next_overlay_id` is the counter of the module.
pub record Page : Type 0 where
  pub history : List (Option ℕ)
  pub overlays : List Overlay
  pub dismissed : List ℕ
  pub next_overlay_id : ℕ

-- `history.state?.[STATE_KEY]`
abbrev pub current : List (Option ℕ) → Option ℕ
current [] = none
current (entry ∷ entries) = entry

abbrev pub is_id : ℕ → Option ℕ → Bool
is_id id none = false
is_id id (some n) = n == id

-- The effect of an overlay that opens.
unfoldable pub open_overlay : Page → Page
open_overlay p =
    let id = suc p.next_overlay_id in
    record p {
      history = some id ∷ p.history;
      overlays = p.overlays ++ record { id = id; entry_live = true } ∷ [];
      next_overlay_id = id;
    }

-- `onPopState` of an overlay, for the state of the entry that is current now.
abbrev pub hear : Option ℕ → Overlay → Overlay
hear state o = if is_id o.id state then o else record o { entry_live = false }

unfoldable pub on_pop_state : Option ℕ → Page → Page
on_pop_state state p = record p {
  overlays = map (hear state) p.overlays;
  dismissed = p.dismissed ++ map (λ o. o.id) (filter (λ o. not (is_id o.id state)) p.overlays);
}

abbrev pub left : List (Option ℕ) → List (Option ℕ)
left [] = []
left (entry ∷ entries) = entries

-- `history.back()`, or the user's gesture.
unfoldable pub back : Page → Page
back p =
    let entries = left p.history in on_pop_state (current entries) (record p { history = entries })

abbrev pub owns_entry : Option Overlay → Option ℕ → Bool
owns_entry none state = false
owns_entry (some o) state = o.entry_live && is_id o.id state

-- The cleanup of the effect of an overlay that closes.
unfoldable pub close_overlay : ℕ → Page → Page
close_overlay id p =
    let p' = record p { overlays = filter (λ o. not (o.id == id)) p.overlays } in
    if owns_entry (find (λ o. o.id == id) p.overlays) (current p.history) then back p' else p'
