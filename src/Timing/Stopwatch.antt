-- ===== src/Timing/Stopwatch.antt =====
-- web-rally/src/hooks/useStopwatch.ts. Times are milliseconds; `clock` is the latest value of
-- `Date.now()`, which is taken not to go back. Frames are the runs of `tick`.
pub mod Laps
use platform_rally_extension.Base.{
  ℕ, suc, ◌+◌, ◌-◌, ◌/◌, ◌%◌, ◌≤◌, ◌≡◌, String, Bool, true, false, if◌then◌else◌, ltb, Option, none,
  some, List, [], ◌∷◌, ◌++◌, length,
}

pub record Lap : Type 0 where
  pub n : ℕ
  pub elapsed : ℕ
  pub split : ℕ

pub record TimeParts : Type 0 where
  pub h : ℕ
  pub m : ℕ
  pub s : ℕ
  pub cs : ℕ

unfoldable pub time_parts : ℕ → TimeParts
time_parts ms = record {
  h = ms / 3600000;
  m = (ms % 3600000) / 60000;
  s = (ms % 60000) / 1000;
  cs = (ms % 1000) / 10;
}

-- `formatStopwatchTime`, as the pieces of its text; `pad2` is `String(n).padStart(2, "0")`.
unfoldable pub format_stopwatch_time : (ℕ → String) → ℕ → List String
format_stopwatch_time pad2 ms =
    let t = time_parts ms in
    let minutes = pad2 t.m ∷ ":" ∷ pad2 t.s ∷ "." ∷ pad2 t.cs ∷ [] in
    if ltb 0 t.h then pad2 t.h ∷ ":" ∷ minutes else minutes

pub record Stopwatch : Type 0 where
  pub running : Bool
  pub elapsed : ℕ
  pub laps : List Lap
  pub start_ref : Option ℕ
  pub base_ref : ℕ
  pub clock : ℕ

abbrev pub fresh : ℕ → Stopwatch
fresh now = record {
  running = false;
  elapsed = 0;
  laps = [];
  start_ref = none;
  base_ref = 0;
  clock = now;
}

abbrev pub since : ℕ → Option ℕ → ℕ
since now none = 0
since now (some start) = now - start

abbrev pub ticked : ℕ → Option ℕ → Stopwatch → Stopwatch
ticked now none w = record w { clock = now }
ticked now (some start) w = record w { elapsed = w.base_ref + (now - start); clock = now }

unfoldable pub tick : ℕ → Stopwatch → Stopwatch
tick now w = ticked now w.start_ref w

unfoldable pub start : ℕ → Stopwatch → Stopwatch
start now w = record w { start_ref = some now; running = true; clock = now }

unfoldable pub pause : ℕ → Stopwatch → Stopwatch
pause now w = record w {
  base_ref = w.base_ref + since now w.start_ref;
  start_ref = none;
  running = false;
  clock = now;
}

unfoldable pub reset : ℕ → Stopwatch → Stopwatch
reset now w = record (pause now w) { base_ref = 0; start_ref = none; elapsed = 0; laps = [] }

-- `ls.length > 0 ? ls[ls.length - 1].elapsed : 0`
abbrev pub last_elapsed : List Lap → ℕ
last_elapsed [] = 0
last_elapsed (l ∷ []) = l.elapsed
last_elapsed (l ∷ k ∷ ks) = last_elapsed (k ∷ ks)

unfoldable pub lap : Stopwatch → Stopwatch
lap w = record w {
  laps =
      w.laps
      ++ record {
        n = length w.laps + 1;
        elapsed = w.elapsed;
        split = w.elapsed - last_elapsed w.laps;
      }
        ∷ [];
}

-- What can happen: the page offers the start only while the watch stands still.
pub data Step : Stopwatch → Stopwatch → Type 0 where
  frame : (now : ℕ) (w : Stopwatch) → w.clock ≤ now → Step w (tick now w)
  started : (now : ℕ) (w : Stopwatch) → w.clock ≤ now → w.running ≡ false → Step w (start now w)
  paused : (now : ℕ) (w : Stopwatch) → w.clock ≤ now → Step w (pause now w)
  cleared : (now : ℕ) (w : Stopwatch) → w.clock ≤ now → Step w (reset now w)
  lapped : (w : Stopwatch) → Step w (lap w)

pub data Reach (s : Stopwatch) : Stopwatch → Type 0 where
  here : Reach s s
  next : {t u : Stopwatch} → Reach s t → Step t u → Reach s u
