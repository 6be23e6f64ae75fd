-- ===== src/Progress/Scanner/Once.antt =====
-- How often a code is reported.
use mathlib.Core.Path.{subst}
use platform_rally_extension.Base.{
  ℕ, suc, ◌+◌, ◌≤◌, ◌≡◌, ◌⊎◌, inl, inr, refl, sym, ap, Bool, true, false, if◌then◌else◌, ◌==◌,
  Same-nat, String, Option, none, some, List, [], ◌∷◌, ◌++◌, any, length, length-append, arith,
  Bool-cases,
}
use platform_rally_extension.Progress.Scanner.{
  Look, not_ready, nothing, broken, code, Scanner, initial, scan, without, cancel_frame,
  start_scanning, stop_scanning, run_effect, on_frame, Step, started, stopped, effect, frame, Reach,
  here, next,
}

-- No frame waits, or only the one that was asked for last.
pub data IsSingle (s : Scanner) : Type 0 where
  idle : s.frames ≡ [] → IsSingle s
  waiting :
      (id : ℕ)
      → s.frames ≡ id ∷ []
      → s.scan_interval_ref ≡ some id
      → s.is_active ≡ true
      → IsSingle s

-- The codes that were reported, and the one that an active scanner still may report.
abbrev pub due : Scanner → ℕ
due s = length s.detected + (if s.is_active then 1 else 0)

pub record IsSound (s : Scanner) : Type 0 where
  pub single : IsSingle s
  pub counted : due s ≤ s.starts

without_itself : (id : ℕ) → without (some id) (id ∷ []) ≡ []
without_itself id = ground arith

frames-cancel : (s : Scanner) → IsSingle s → (cancel_frame s).frames ≡ []
frames-cancel s (idle e) = without_nothing s.scan_interval_ref e
  where
    without_nothing : (o : Option ℕ) {frames : List ℕ} → frames ≡ [] → without o frames ≡ []
    without_nothing none e = e
    without_nothing (some id) e = ap (without (some id)) e
frames-cancel s (waiting id e r a) = rw (r, e) (without_itself id)

one_more :
    (text : String) (s : Scanner)
    → s.is_active ≡ true
    → due s ≤ s.starts
    → length (s.detected ++ text ∷ []) + 0 ≤ s.starts
one_more text s a c =
    let n : length s.detected + 1 ≤ s.starts = rw a at c in
    omega (arith, n, length-append s.detected (text ∷ []))

-- A scan of an active scanner that waits for no frame.
scan-IsSound :
    (look : Look) (s : Scanner)
    → s.frames ≡ []
    → s.is_active ≡ true
    → due s ≤ s.starts
    → IsSound (scan look s)
unfolding scan
scan-IsSound not_ready s e a c = record {
  single = waiting (suc s.asked) (rw e refl) refl a;
  counted = c;
}
scan-IsSound nothing s e a c = record {
  single = waiting (suc s.asked) (rw e refl) refl a;
  counted = c;
}
scan-IsSound broken s e a c = record { single = idle e; counted = c }
scan-IsSound (code text) s e a c = record { single = idle e; counted = one_more text s a c }

frames_of_inactive : (s : Scanner) → IsSingle s → s.is_active ≡ false → s.frames ≡ []
frames_of_inactive s (idle e) a = e
frames_of_inactive s (waiting id e r active) a = absurd (ground arith)

only_frame :
    (id : ℕ) (s : Scanner)
    → IsSingle s
    → any (λ f. f == id) s.frames ≡ true
    → (without (some id) s.frames ≡ []) × (s.is_active ≡ true)
only_frame id s (idle e) h = absurd (none_there id s.frames e h)
  where
    none_there : (id : ℕ) (fs : List ℕ) → fs ≡ [] → any (λ f. f == id) fs ≡ true → ⊥
    none_there id [] e h = cc h
    none_there id (f ∷ fs) e h = cc e
only_frame id s (waiting j e r a) h =
    let there : any (λ f. f == id) (j ∷ []) ≡ true = rw e at h in (rw e (gone j there), a)
  where
    gone : (j : ℕ) → any (λ f. f == id) (j ∷ []) ≡ true → without (some id) (j ∷ []) ≡ []
    gone j h = ground arith

start-IsSound : (s : Scanner) → IsSound s → IsSound (start_scanning s)
unfolding start_scanning
start-IsSound s h = record { single = still h.single; counted = up s.is_active h.counted }
  where
    still : IsSingle s → IsSingle (start_scanning s)
    still (idle e) = idle e
    still (waiting id e r a) = waiting id e r refl

    up :
        (b : Bool)
        → length s.detected + (if b then 1 else 0) ≤ s.starts
        → length s.detected + 1 ≤ s.starts + 1
    up true c = omega (arith, c)
    up false c = omega (arith, c)

Step-IsSound : {s t : Scanner} → Step s t → IsSound s → IsSound t
unfolding stop_scanning run_effect on_frame
Step-IsSound (started s) h = start-IsSound s h
Step-IsSound (stopped s) h = record {
  single = idle (frames-cancel s h.single);
  counted = omega (arith, h.counted);
}
Step-IsSound (effect look s) h =
    let s' = cancel_frame s in
    let to = λ (b : Bool). if b then scan look s' else s' in
    elim (Bool-cases s.is_active) [
      | inl a ↦
          subst IsSound (sym (ap to a))
            (scan-IsSound look s' (frames-cancel s h.single) a h.counted)
      | inr off ↦
          subst IsSound (sym (ap to off))
            (record { single = idle (frames-cancel s h.single); counted = h.counted })
    ]
Step-IsSound (frame id look s there) h =
    let (gone, a) = only_frame id s h.single there in
    scan-IsSound look (record s { frames = without (some id) s.frames }) gone a h.counted

Reach-IsSound : {s : Scanner} → Reach initial s → IsSound s
Reach-IsSound here = record { single = idle refl; counted = omega arith }
Reach-IsSound (next r st) = Step-IsSound st (Reach-IsSound r)

-- However the scanner is started and stopped, and whatever its frames show, it reports at most one
-- code for each start; at most one frame is waited for, and none while it is not active.
pub Reach-IsOnce :
    {s : Scanner}
    → Reach initial s
    → (length s.detected ≤ s.starts)
      × (length s.frames ≤ 1)
      × ((s.is_active ≡ true) ⊎ (s.frames ≡ []))
Reach-IsOnce {s} r =
    let h = Reach-IsSound r in
    (omega (arith, h.counted), at_most_one h.single, active_or_none h.single)
  where
    at_most_one : IsSingle s → length s.frames ≤ 1
    at_most_one (idle e) = rw e (omega arith)
    at_most_one (waiting id e q a) = rw e (omega arith)

    active_or_none : IsSingle s → (s.is_active ≡ true) ⊎ (s.frames ≡ [])
    active_or_none (idle e) = inr e
    active_or_none (waiting id e q a) = inl a
