-- ===== src/Navigation/TabScrub/Gesture.antt =====
-- A whole gesture on the tab bar, from the press to the release.
use mathlib.Core.List.{append-nil}
use mathlib.Core.Path.{subst, subst₂}
use platform_rally_extension.Base.{
  ℕ, ◌-◌, ◌≡◌, refl, sym, ◌∙◌, ap, ltb, Bool, true, false, ◌&&◌, ◌||◌, not, if◌then◌else◌, ◌==◌,
  Same-nat, none, some, List, [], ◌∷◌, ◌++◌, arith, Bool-cases, inl, inr,
}
use platform_rally_extension.Navigation.TabScrub.{
  drag_threshold_px, Bar, Scrub, distance, same_index, tab_at, inside, settle, on_pointer_down,
  is_vertical, hand_back, track, move, end, Pointer, pointer_move, pointer_up, pointer_cancel,
  on_pointer, on_click_capture,
}

abbrev pub on_pointers : Bar → List (ℕ × ℕ) → Scrub → Scrub
on_pointers bar [] s = s
on_pointers bar ((x, y) ∷ path) s = on_pointers bar path (on_pointer bar (pointer_move x y) s)

module _ (bar : Bar) (x₀ y₀ : ℕ) where
  -- Whether a position is more than the threshold away from the press.
  abbrev pub is_far : ℕ × ℕ → Bool
  is_far (x, y) = ltb drag_threshold_px (distance x x₀)

  -- Whether the path turns vertical before it was ever far to a side.
  abbrev pub turns_vertical : Bool → List (ℕ × ℕ) → Bool
  turns_vertical far [] = false
  turns_vertical far ((x, y) ∷ path) =
      if not far && is_vertical (distance x x₀) (distance y y₀)
      then true
      else turns_vertical (is_far (x, y) || far) path

  abbrev pub ever_far : Bool → List (ℕ × ℕ) → Bool
  ever_far far [] = far
  ever_far far (p ∷ path) = ever_far (is_far p || far) path

  -- The tab under the end of the path.
  abbrev pub last_tab : ℕ → List (ℕ × ℕ) → ℕ
  last_tab tab [] = tab
  last_tab tab ((x, y) ∷ path) = last_tab (tab_at bar (inside bar x)) path

  -- The state of a drag from there, over the tab.
  pub record IsOver (far : Bool) (tab : ℕ) (s : Scrub) : Type 0 where
    pub start_x : s.start_x ≡ x₀
    pub start_y : s.start_y ≡ y₀
    pub moved : s.moved ≡ far
    pub index : s.index ≡ some tab
    pub is_dragging : s.is_dragging ≡ true

  -- What the gesture selects and whether it counts as a drag, from a state of the drag.
  abbrev pub chosen : Bool → ℕ → List (ℕ × ℕ) → List ℕ
  chosen far tab path =
      if turns_vertical far path
      then []
      else if ever_far far path && not (same_index bar.active_index (last_tab tab path))
      then last_tab tab path ∷ []
      else []

  abbrev pub is_drag : Bool → List (ℕ × ℕ) → Bool
  is_drag far path = not (turns_vertical far path) && ever_far far path

  -- The pointer is up, and the bar has selected those tabs.
  pub record IsOut (tabs : List ℕ) (drag : Bool) (s : Scrub) : Type 0 where
    pub selected : s.selected ≡ tabs
    pub moved : s.moved ≡ drag
    pub is_dragging : s.is_dragging ≡ false
    pub hover_index : s.hover_index ≡ none

  on_pointer_out : (p : Pointer) (s : Scrub) → s.is_dragging ≡ false → on_pointer bar p s ≡ s
  unfolding on_pointer
  on_pointer_out (pointer_move x y) s h = ap (λ b. if b then move bar x y s else s) h
  on_pointer_out pointer_up s h = ap (λ b. if b then end bar s else s) h
  on_pointer_out pointer_cancel s h = ap (λ b. if b then end bar s else s) h

  on_pointers_out :
      (path : List (ℕ × ℕ)) (s : Scrub) → s.is_dragging ≡ false → on_pointers bar path s ≡ s
  on_pointers_out [] s h = refl
  on_pointers_out ((x, y) ∷ path) s h =
      ap (on_pointers bar path) (on_pointer_out (pointer_move x y) s h) ∙ on_pointers_out path s h

  IsOut-pointers :
      (tabs : List ℕ) (m : Bool) (path : List (ℕ × ℕ)) (p : Pointer) (s : Scrub)
      → IsOut tabs m s
      → IsOut tabs m (on_pointer bar p (on_pointers bar path s))
  IsOut-pointers tabs m path p s o =
      let e : on_pointer bar p (on_pointers bar path s) ≡ s =
        ap (on_pointer bar p) (on_pointers_out path s o.is_dragging)
        ∙ on_pointer_out p s o.is_dragging in
      subst (IsOut tabs m) (sym e) o

  hand_back-IsOut : (s : Scrub) → IsOut s.selected s.moved (hand_back bar s)
  unfolding settle
  hand_back-IsOut s = ground arith

  end-IsOut :
      (far : Bool) (tab : ℕ) (s : Scrub)
      → IsOver far tab s
      → IsOut (s.selected ++ chosen far tab []) far (end bar s)
  unfolding end settle
  end-IsOut far tab s o = ground (arith, append-nil s.selected)

  track-IsOver :
      (far : Bool) (tab x y : ℕ) (s : Scrub)
      → IsOver far tab s
      → IsOver (is_far (x, y) || far) (tab_at bar (inside bar x)) (track bar x s)
        × ((track bar x s).selected ≡ s.selected)
  track-IsOver far tab x y s o =
      let index = tab_at bar (inside bar x) in
      elim (Bool-cases (same_index s.index index)) [ inl h ↦ ground arith | inr h ↦ ground arith ]

  -- The pointer is released, or taken away by the system.
  abbrev pub ends : Pointer → Bool
  ends (pointer_move x y) = false
  ends _ = true

  last-IsOut :
      (far : Bool) (tab : ℕ) (p : Pointer) (s : Scrub)
      → ends p ≡ true
      → IsOver far tab s
      → IsOut (s.selected ++ chosen far tab []) far (on_pointer bar p s)
  unfolding on_pointer
  last-IsOut far tab (pointer_move x y) s h o = absurd (ground arith)
  last-IsOut far tab pointer_up s h o =
      subst (IsOut _ far) (sym (ap (λ b. if b then end bar s else s) o.is_dragging))
        (end-IsOut far tab s o)
  last-IsOut far tab pointer_cancel s h o =
      subst (IsOut _ far) (sym (ap (λ b. if b then end bar s else s) o.is_dragging))
        (end-IsOut far tab s o)

  on_pointer_over :
      (far : Bool) (tab x y : ℕ) (s : Scrub)
      → (bar.count == 0) ≡ false
      → IsOver far tab s
      → on_pointer bar (pointer_move x y) s ≡ (
          if not far && is_vertical (distance x x₀) (distance y y₀)
          then hand_back bar s
          else track bar x s)
  unfolding on_pointer move
  on_pointer_over far tab x y s some_tab o =
      let c : (not s.moved && is_vertical (distance x s.start_x) (distance y s.start_y))
          ≡ (not far && is_vertical (distance x x₀) (distance y y₀)) =
        rw (o.moved, o.start_x, o.start_y) refl in
      ap (λ b. if b then move bar x y s else s) o.is_dragging
      ∙ ap
          (λ b.
            if b
            then s
            else if not s.moved && is_vertical (distance x s.start_x) (distance y s.start_y)
            then hand_back bar s
            else track bar x s)
          some_tab
      ∙ ap (λ b. if b then hand_back bar s else track bar x s) c

  drag_of_bail :
      (far : Bool) (path : List (ℕ × ℕ)) → turns_vertical far path ≡ true → is_drag far path ≡ false
  drag_of_bail far path h = ground arith

  path-IsOut :
      (path : List (ℕ × ℕ)) (far : Bool) (tab : ℕ) (p : Pointer) (s : Scrub)
      → ends p ≡ true
      → (bar.count == 0) ≡ false
      → IsOver far tab s
      → IsOut
          (s.selected ++ chosen far tab path)
          (is_drag far path)
          (on_pointer bar p (on_pointers bar path s))
  path-IsOut [] far tab p s h some_tab o = last-IsOut far tab p s h o
  path-IsOut ((x, y) ∷ path) far tab p s h some_tab o =
      let step = on_pointer_over far tab x y s some_tab o in
      let tabs = s.selected ++ chosen far tab ((x, y) ∷ path) in
      let drag = is_drag far ((x, y) ∷ path) in
      let far' = is_far (x, y) || far in
      let tab' = tab_at bar (inside bar x) in
      elim (Bool-cases (not far && is_vertical (distance x x₀) (distance y y₀))) [
        | inl v ↦
            let q : on_pointer bar (pointer_move x y) s ≡ hand_back bar s = rw v at step in
            let c : chosen far tab ((x, y) ∷ path) ≡ [] = rw v refl in
            let e : s.selected ≡ s.selected ++ chosen far tab ((x, y) ∷ path) =
              sym (ap (λ l. s.selected ++ l) c ∙ append-nil s.selected) in
            let m : s.moved ≡ is_drag far ((x, y) ∷ path) =
              o.moved ∙ (ground arith) ∙ sym (drag_of_bail far ((x, y) ∷ path) (rw v refl)) in
            subst (λ u. IsOut tabs drag (on_pointer bar p (on_pointers bar path u))) (sym q)
              (subst₂ (λ a b. IsOut a b (on_pointer bar p (on_pointers bar path (hand_back bar s))))
                e m
                (IsOut-pointers s.selected s.moved path p (hand_back bar s) (hand_back-IsOut s)))
        | inr w ↦
            let q : on_pointer bar (pointer_move x y) s ≡ track bar x s = rw w at step in
            let (next, kept) = track-IsOver far tab x y s o in
            let c : chosen far' tab' path ≡ chosen far tab ((x, y) ∷ path) = rw w refl in
            let m : is_drag far' path ≡ is_drag far ((x, y) ∷ path) = rw w refl in
            subst (λ u. IsOut tabs drag (on_pointer bar p (on_pointers bar path u))) (sym q)
              (subst₂ (λ a b. IsOut a b (on_pointer bar p (on_pointers bar path (track bar x s))))
                (ap (λ l. l ++ chosen far' tab' path) kept ∙ ap (λ l. s.selected ++ l) c) m
                (path-IsOut path far' tab' p (track bar x s) h some_tab next))
      ]

  down-IsOver :
      (s : Scrub)
      → (bar.count == 0) ≡ false
      → IsOver false (tab_at bar (x₀ - bar.left)) (on_pointer_down bar false x₀ y₀ s)
        × ((on_pointer_down bar false x₀ y₀ s).selected ≡ s.selected)
  unfolding on_pointer_down
  down-IsOver s some_tab = ground arith

  -- A press on a bar with tabs, any path of the pointer and its release or loss: nothing is selected
  -- where the path turns vertical before it was ever far to a side, and else, if it was ever far, the
  -- tab under its end, unless that is active already. The click that follows is swallowed exactly
  -- after such a drag, and the bar is at rest.
  pub on_pointers-select :
      (path : List (ℕ × ℕ)) (p : Pointer) (s : Scrub)
      → ends p ≡ true
      → (bar.count == 0) ≡ false
      → let s' = on_pointer bar p (on_pointers bar path (on_pointer_down bar false x₀ y₀ s)) in
        (s'.selected ≡ s.selected ++ chosen false (tab_at bar (x₀ - bar.left)) path)
        × ((on_click_capture s').0 ≡ is_drag false path)
        × (s'.is_dragging ≡ false)
        × (s'.hover_index ≡ none)
  unfolding on_click_capture
  on_pointers-select path p s h some_tab =
      let (over, kept) = down-IsOver s some_tab in
      let out = path-IsOut path false _ p (on_pointer_down bar false x₀ y₀ s) h some_tab over in
      (
        out.selected ∙ ap (λ l. l ++ chosen false _ path) kept,
        click _ out.moved,
        out.is_dragging,
        out.hover_index,
      )
    where
      click : (s : Scrub) {m : Bool} → s.moved ≡ m → (on_click_capture s).0 ≡ m
      click s e = ground arith
