-- ===== src/Navigation/BackDismiss/Nested.antt =====
-- Overlays over each other, and the back gesture.
use mathlib.Core.List.{append-nil}
use platform_rally_extension.Base.{
  ℕ, suc, ◌≡◌, refl, true, false, ◌==◌, Same-nat, Option, List, [], ◌∷◌, ◌++◌, arith,
}
use platform_rally_extension.Navigation.BackDismiss.{
  Page, current, is_id, open_overlay, on_pop_state, back, close_overlay,
}

-- A page without overlays.
abbrev pub bare : List (Option ℕ) → List ℕ → ℕ → Page
bare history dismissed n = record {
  history = history;
  overlays = [];
  dismissed = dismissed;
  next_overlay_id = n;
}

itself : (n : ℕ) → (n == n) ≡ true
itself n = ground arith

module _ (h : List (Option ℕ)) (d : List ℕ) (n : ℕ) where
  -- On a page without overlays, whose entry does not carry the next id: an overlay that is closed
  -- leaves the history as it was and dismisses nothing; the back gesture dismisses it, once, and
  -- leaves the history as it was, also after its cleanup. With a second overlay over the first, the
  -- gesture dismisses the second alone, and closing the second leaves the history and the first
  -- overlay as they were before it was opened.
  pub open_overlay-back :
      is_id (suc n) (current h) ≡ false
      → let one = open_overlay (bare h d n) in
        let two = open_overlay one in
        ((close_overlay (suc n) one).history ≡ h)
        × ((close_overlay (suc n) one).dismissed ≡ d)
        × ((back one).dismissed ≡ d ++ suc n ∷ [])
        × ((close_overlay (suc n) (back one)).history ≡ h)
        × ((back two).dismissed ≡ d ++ suc (suc n) ∷ [])
        × ((close_overlay (suc (suc n)) two).history ≡ one.history)
        × ((close_overlay (suc (suc n)) two).overlays ≡ one.overlays)
  unfolding open_overlay close_overlay back on_pop_state
  open_overlay-back fresh = (
    rw (itself (suc n), itself (suc n)) refl,
    rw (itself (suc n), itself (suc n)) (append-nil d),
    rw fresh refl,
    rw (fresh, itself (suc n)) refl,
    ground arith,
    ground arith,
    ground arith,
  )

  -- A third overlay: the back gesture dismisses the first one with it, and leaves the second.
  pub third-back :
      (back (open_overlay (open_overlay (open_overlay (bare h d n))))).dismissed
      ≡ d ++ suc n ∷ suc (suc (suc n)) ∷ []
  unfolding open_overlay back on_pop_state
  third-back = ground arith
