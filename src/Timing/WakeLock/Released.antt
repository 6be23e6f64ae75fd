-- ===== src/Timing/WakeLock/Released.antt =====
-- Which locks a run of the effect leaves behind.
use mathlib.Core.Path.{subst}
use platform_rally_extension.Base.{
  ℕ, suc, ◌+◌, ◌≤◌, ◌≡◌, ◌⊎◌, inl, inr, refl, sym, ap, ◌∙◌, Bool-cases, Bool, true, false,
  if◌then◌else◌, Same-nat, Option, none, some, List, [], ◌∷◌, length, arith,
}
use platform_rally_extension.Timing.WakeLock.{
  Lock, is_held, acquire, mounted, on_granted, on_refused, on_hidden, on_visible, without, cleanup,
  Step, was_granted, was_refused, hidden, visible, cleaned, Reach, here, next,
}

-- At most one lock is held, that of the sentinel; none while a request waits; and none once the
-- effect is cleaned up.
pub data IsTidy : Lock → Type 0 where
  idle : {w : Lock} → w.held ≡ [] → w.requests ≤ 1 → IsTidy w
  holding :
      {w : Lock} (lock : ℕ)
      → w.held ≡ lock ∷ []
      → w.sentinel ≡ some lock
      → w.requests ≡ 0
      → w.cancelled ≡ false
      → IsTidy w

held_itself : (lock : ℕ) → is_held (some lock) (lock ∷ []) ≡ true
held_itself lock = ground arith

without_itself : (lock : ℕ) → without (some lock) (lock ∷ []) ≡ []
without_itself lock = ground arith

without_nothing : (o : Option ℕ) (held : List ℕ) → held ≡ [] → without o held ≡ []
without_nothing none held h = h
without_nothing (some lock) held h = ap (without (some lock)) h

acquire_held : (w : Lock) → is_held w.sentinel w.held ≡ true → acquire w ≡ w
unfolding acquire
acquire_held w h = ap (λ b. if b then w else record w { requests = w.requests + 1 }) h

visible-IsTidy :
    (w : Lock) (c there : Bool)
    → w.held ≡ []
    → w.requests ≡ 0
    → IsTidy (if c then w else if there then w else record w { requests = w.requests + 1 })
visible-IsTidy w true there h e = idle h (omega (arith, e))
visible-IsTidy w false true h e = idle h (omega (arith, e))
visible-IsTidy w false false h e = idle h (omega (arith, e))

Step-IsTidy : {w v : Lock} → Step w v → IsTidy w → IsTidy v
unfolding on_granted on_refused on_hidden on_visible cleanup acquire
Step-IsTidy (was_granted others w e) (idle h r) = elim (Bool-cases w.cancelled) [
  | inl c ↦ rw c (idle h (omega (arith, e, r)))
  | inr c ↦ rw c (holding w.granted (rw h refl) refl (omega (arith, e, r)) refl)
]
Step-IsTidy (was_granted others w e) (holding lock h s r c) = absurd (ground arith)
Step-IsTidy (was_refused others w e) (idle h r) = idle h (omega arith)
Step-IsTidy (was_refused others w e) (holding lock h s r c) = absurd (ground arith)
Step-IsTidy (hidden w) (idle h r) = idle refl r
Step-IsTidy (hidden w) (holding lock h s r c) = idle refl (omega arith)
Step-IsTidy (visible w e) (idle h r) =
    visible-IsTidy w (w.cancelled) (is_held w.sentinel w.held) h e
Step-IsTidy (visible w e) (holding lock h s r c) =
    let there : is_held w.sentinel w.held ≡ true = rw (s, h) (held_itself lock) in
    subst IsTidy (sym (ap (λ b. if b then w else acquire w) c ∙ acquire_held w there))
      (holding lock h s r c)
Step-IsTidy (cleaned w) (idle h r) = idle (without_nothing w.sentinel w.held h) r
Step-IsTidy (cleaned w) (holding lock h s r c) =
    idle (rw (s, h) (without_itself lock)) (omega (arith, r))

Reach-IsTidy : {w v : Lock} → IsTidy w → Reach w v → IsTidy v
Reach-IsTidy t here = t
Reach-IsTidy t (next r s) = Step-IsTidy s (Reach-IsTidy t r)

-- If the page never becomes visible while a request waits, then whatever the browser grants, refuses
-- or takes away, a run of the effect holds at most one lock, and none once it is cleaned up.
pub Reach-IsReleased :
    {w : Lock} → Reach mounted w → (length w.held ≤ 1) × ((w.cancelled ≡ false) ⊎ (w.held ≡ []))
Reach-IsReleased r = elim (Reach-IsTidy (idle refl (omega arith)) r) [
  | idle h _ ↦ (rw h (omega arith), inr h)
  | holding lock h _ _ c ↦ (rw h (omega arith), inl c)
]

-- If the page becomes visible while the first request waits, two requests wait; and where the effect
-- holds no lock and two requests are granted one after the other, the first lock is still held after
-- the cleanup.
pub overlap-leaks :
    (w : Lock) (others : ℕ)
    → w.held ≡ []
    → w.cancelled ≡ false
    → ((on_visible mounted).requests ≡ 2)
      × ((cleanup (on_granted others (on_granted (suc others) w))).held ≡ w.granted ∷ [])
unfolding cleanup on_granted on_visible acquire
overlap-leaks w others h c = (refl, ground arith)
