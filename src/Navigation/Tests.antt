-- ===== src/Navigation/Tests.antt =====
-- Gestures and routes at concrete inputs.
use platform_rally_extension.Base.{ℕ, ◌≡◌, refl, false, none, some, List, [], ◌∷◌, ◌++◌}
use platform_rally_extension.Navigation.TabScrub.{
  Bar, Scrub, at_rest, tab_at, on_pointer_down, pointer_up, on_pointer, on_click_capture, settle,
  move, end,
}
use platform_rally_extension.Navigation.TabScrub.Gesture.{
  on_pointers, chosen, is_drag, on_pointers-select,
}
use platform_rally_extension.Navigation.BackDismiss.{open_overlay, back, close_overlay}
use platform_rally_extension.Navigation.BackDismiss.Nested.{bare, open_overlay-back, third-back}

-- Four tabs on 400 pixels, the first of them active.
abbrev bar : Bar
bar = record { left = 10; width = 400; count = 4; active_index = some 0 }

abbrev path : List (ℕ × ℕ)
path = (60, 702) ∷ (180, 730) ∷ (250, 699) ∷ []

abbrev dragged : Scrub
dragged =
    on_pointer bar pointer_up (on_pointers bar path (on_pointer_down bar false 50 700 at_rest))

dragged_selects : dragged.selected ≡ 2 ∷ []
unfolding on_pointer on_pointer_down move settle end
dragged_selects = refl

on_pointers-select_example :
    (dragged.selected ≡ [] ++ chosen bar 50 700 false (tab_at bar 40) path)
    × ((on_click_capture dragged).0 ≡ is_drag bar 50 700 false path)
    × (dragged.is_dragging ≡ false)
    × (dragged.hover_index ≡ none)
on_pointers-select_example = on_pointers-select bar 50 700 path pointer_up at_rest refl refl

open_overlay_example :
    let one = open_overlay (bare (none ∷ []) [] 3) in
    let two = open_overlay one in
    ((close_overlay 4 one).history ≡ none ∷ [])
    × ((close_overlay 4 one).dismissed ≡ [])
    × ((back one).dismissed ≡ 4 ∷ [])
    × ((close_overlay 4 (back one)).history ≡ none ∷ [])
    × ((back two).dismissed ≡ 5 ∷ [])
    × ((close_overlay 5 two).history ≡ one.history)
    × ((close_overlay 5 two).overlays ≡ one.overlays)
open_overlay_example = open_overlay-back (none ∷ []) [] 3 refl

third_example :
    (back (open_overlay (open_overlay (open_overlay (bare (none ∷ []) [] 3))))).dismissed
    ≡ 4 ∷ 6 ∷ []
third_example = third-back (none ∷ []) [] 3
