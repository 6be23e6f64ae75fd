-- ===== src/Search/Scroll/Polling.antt =====
-- The polling ends.
use platform_rally_extension.Base.{
  ℕ, zero, suc, ◌+◌, ◌≤◌, ltb, ◌≡◌, refl, String, Bool, true, false, ◌||◌, if◌then◌else◌, ◌==◌,
  Same-text, some, arith, Bool-cases, inl, inr,
}
use platform_rally_extension.Search.Scroll.{
  max_attempts, Scroll, found, given_up, try_scroll, scroll_to_search_target,
}

-- Whether the element is there at one of the next tries.
abbrev pub within : (ℕ → Bool) → ℕ → ℕ → Bool
within present attempts zero = false
within present attempts (suc n) = present attempts || within present (attempts + 1) n

try_scroll-ends :
    (present : ℕ → Bool) (n fuel attempts : ℕ) (s : Scroll)
    → attempts + suc n ≡ max_attempts
    → suc n ≤ fuel
    → try_scroll present fuel attempts s
      ≡ some (if within present attempts (suc n) then found s else given_up s)
unfolding try_scroll
try_scroll-ends present n zero attempts s left enough = absurd (omega arith)
try_scroll-ends present zero (suc fuel) attempts s left enough =
    let over : ltb (attempts + 1) max_attempts ≡ false = ground (arith, left) in
    elim (Bool-cases (present attempts)) [
      | inl here ↦ rw here refl
      | inr missing ↦ rw (missing, over) refl
    ]
try_scroll-ends present (suc n) (suc fuel) attempts s left enough =
    let more : ltb (attempts + 1) max_attempts ≡ true = ground (arith, left) in
    let rest =
      try_scroll-ends present n fuel (attempts + 1) s (omega (arith, left))
        (omega (arith, enough)) in
    elim (Bool-cases (present attempts)) [
      | inl here ↦ rw here refl
      | inr missing ↦ rw (missing, more) rest
    ]

-- With a key, the polling ends after at most ten tries: it scrolls to the element, once, if the
-- element is there at one of those tries, and not at all else; either way it reports exactly once
-- that it is done.
pub scroll_to_search_target-ends :
    (pending_key : String) (present : ℕ → Bool) (fuel : ℕ) (s : Scroll)
    → (pending_key == "") ≡ false
    → max_attempts ≤ fuel
    → scroll_to_search_target (some pending_key) present fuel s
      ≡ some (if within present 0 max_attempts then found s else given_up s)
unfolding scroll_to_search_target
scroll_to_search_target-ends pending_key present fuel s named enough =
    rw named (try_scroll-ends present 9 fuel 0 s refl enough)
