-- ===== src/Search/Scroll.antt =====
-- web-rally/src/hooks/useScrollToSearchTarget.ts: the polling for the element that a search names.
-- `present` says at which tries the element is in the document; the timers fire unless the effect is
-- cleaned up.
pub mod Polling
use platform_rally_extension.Base.{
  ℕ, zero, suc, ◌+◌, ltb, String, Bool, true, false, if◌then◌else◌, ◌==◌, Same-text, Option, none,
  some,
}

abbrev pub max_attempts : ℕ
max_attempts = 10

-- What a run of the effect has done: the scrolls to the element, with its highlight, and the calls of
-- `onDone`.
pub record Scroll : Type 0 where
  pub scrolled : ℕ
  pub done : ℕ

abbrev pub untouched : Scroll
untouched = record { scrolled = 0; done = 0 }

abbrev pub found : Scroll → Scroll
found s = record { scrolled = s.scrolled + 1; done = s.done + 1 }

abbrev pub given_up : Scroll → Scroll
given_up s = record s { done = s.done + 1 }

-- `tryScroll`, with what the timers that it sets lead to, for at most `fuel` calls.
unfoldable pub try_scroll : (ℕ → Bool) → ℕ → ℕ → Scroll → Option Scroll
try_scroll present zero attempts s = none
try_scroll present (suc fuel) attempts s =
    let later = try_scroll present fuel (attempts + 1) s in
    if present attempts
    then some (found s)
    else if ltb (attempts + 1) max_attempts
    then later
    else some (given_up s)

-- The effect: nothing happens without a key.
unfoldable pub scroll_to_search_target : Option String → (ℕ → Bool) → ℕ → Scroll → Option Scroll
scroll_to_search_target none present fuel s = some s
scroll_to_search_target (some pending_key) present fuel s =
    if pending_key == "" then some s else try_scroll present fuel 0 s
