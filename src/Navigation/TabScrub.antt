-- ===== src/Navigation/TabScrub.antt =====
-- web-rally/src/components/shared/navigation/useTabScrub.ts: the drag across the tab bar. Positions
-- are whole pixels and the widths positive; a difference that stops at 0 stands where the source
-- clamps at 0. The stretch of the pill is left out.
pub mod Gesture
use platform_rally_extension.Base.{
  ℕ, ◌+◌, ◌-◌, ◌*◌, ◌/◌, ltb, Bool, true, false, ◌&&◌, not, if◌then◌else◌, ◌==◌, Same-nat, Option,
  none, some, List, [], ◌∷◌, ◌++◌,
}

abbrev pub drag_threshold_px : ℕ
drag_threshold_px = 6

abbrev pub vertical_bailout_px : ℕ
vertical_bailout_px = 10

-- `bounds.left`, `bounds.width`, the number of tabs, and the index of the active one, which is none
-- for a negative one.
pub record Bar : Type 0 where
  pub left : ℕ
  pub width : ℕ
  pub count : ℕ
  pub active_index : Option ℕ

-- Where the pill is: settled on a tab, or under the finger at `clamp(x, 0, width)`.
pub data Pill : Type 0 where
  on_tab under_finger : ℕ → Pill

-- The gesture's ref, the hook's state, and what it did: the ticks of the vibration and the calls of
-- `onSelect`. An index of -1 is none.
pub record Scrub : Type 0 where
  pub start_x : ℕ
  pub start_y : ℕ
  pub moved : Bool
  pub index : Option ℕ
  pub hover_index : Option ℕ
  pub is_dragging : Bool
  pub pill : Pill
  pub ticks : ℕ
  pub selected : List ℕ

abbrev pub at_rest : Scrub
at_rest = record {
  start_x = 0;
  start_y = 0;
  moved = false;
  index = none;
  hover_index = none;
  is_dragging = false;
  pill = on_tab 0;
  ticks = 0;
  selected = [];
}

abbrev pub min : ℕ → ℕ → ℕ
min a b = if ltb b a then b else a

-- `Math.abs(a - b)`
abbrev pub distance : ℕ → ℕ → ℕ
distance a b = if ltb a b then b - a else a - b

abbrev pub same_index : Option ℕ → ℕ → Bool
same_index none n = false
same_index (some m) n = m == n

-- `Math.max(activeIndex, 0)`
abbrev pub active_or_first : Bar → ℕ
active_or_first bar = elim bar.active_index [ none ↦ 0 | some n ↦ n ]

-- `clamp(Math.floor(x / slot), 0, count - 1)`, where `slot` is `width / count`.
abbrev pub tab_at : Bar → ℕ → ℕ
tab_at bar x = min (x * bar.count / bar.width) (bar.count - 1)

-- `clamp(clientX - bounds.left, 0, bounds.width)`
abbrev pub inside : Bar → ℕ → ℕ
inside bar client_x = min (client_x - bar.left) bar.width

unfoldable pub settle : Bar → ℕ → Scrub → Scrub
settle bar index s =
    if bar.count == 0 then s else record s { pill = on_tab (min index (bar.count - 1)) }

-- `secondary` is a mouse button that is not the first one.
unfoldable pub on_pointer_down : Bar → Bool → ℕ → ℕ → Scrub → Scrub
on_pointer_down bar secondary client_x client_y s =
    if secondary
    then s
    else if bar.count == 0
    then s
    else let index = tab_at bar (client_x - bar.left) in
      record s {
        start_x = client_x;
        start_y = client_y;
        moved = false;
        index = some index;
        hover_index = some index;
        is_dragging = true;
      }

-- A vertical movement before any horizontal one.
abbrev pub is_vertical : ℕ → ℕ → Bool
is_vertical travel_x travel_y = ltb vertical_bailout_px travel_y && ltb travel_x travel_y

abbrev pub hand_back : Bar → Scrub → Scrub
hand_back bar s =
    settle bar (active_or_first bar)
      (record s { index = none; is_dragging = false; hover_index = none })

abbrev pub track : Bar → ℕ → Scrub → Scrub
track bar client_x s =
    let x = inside bar client_x in
    let index = tab_at bar x in
    let travel_x = distance client_x s.start_x in
    let s' = record s {
      moved = if ltb drag_threshold_px travel_x then true else s.moved;
      pill = under_finger x;
    } in
    if same_index s.index index
    then s'
    else record s' { index = some index; hover_index = some index; ticks = s.ticks + 1 }

unfoldable pub move : Bar → ℕ → ℕ → Scrub → Scrub
move bar client_x client_y s =
    if bar.count == 0
    then s
    else if not s.moved && is_vertical (distance client_x s.start_x) (distance client_y s.start_y)
    then hand_back bar s
    else track bar client_x s

abbrev pub release_on : Bar → Option ℕ → Scrub → Scrub
release_on bar none s = s
release_on bar (some index) s =
    let s' = settle bar index s in
    if s.moved && not (same_index bar.active_index index)
    then record s' { selected = s.selected ++ index ∷ [] }
    else s'

unfoldable pub end : Bar → Scrub → Scrub
end bar s = release_on bar s.index (record s { is_dragging = false; hover_index = none })

-- The listeners of the window are there while the bar is dragged.
pub data Pointer : Type 0 where
  pointer_move : ℕ → ℕ → Pointer
  pointer_up pointer_cancel : Pointer

unfoldable pub on_pointer : Bar → Pointer → Scrub → Scrub
on_pointer bar (pointer_move x y) s = if s.is_dragging then move bar x y s else s
on_pointer bar pointer_up s = if s.is_dragging then end bar s else s
on_pointer bar pointer_cancel s = if s.is_dragging then end bar s else s

-- Whether the click is swallowed, and the state after it.
unfoldable pub on_click_capture : Scrub → Bool × Scrub
on_click_capture s = if s.moved then (true, record s { moved = false }) else (false, s)

-- The effect that parks the pill on the active tab.
unfoldable pub follow_active : Bar → Scrub → Scrub
follow_active bar s = if s.is_dragging then s else settle bar (active_or_first bar) s
