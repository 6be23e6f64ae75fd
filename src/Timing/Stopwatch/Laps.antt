-- ===== src/Timing/Stopwatch/Laps.antt =====
-- The laps of a stopwatch, and the parts of its time.
use platform_rally_extension.Base.{
  ℕ, ◌+◌, ◌-◌, ◌*◌, ◌%◌, ◌≤◌, ◌<◌, ◌≡◌, refl, sym, ap, ◌∙◌, Bool, true, false, Option, none, some,
  List, [], ◌∷◌, ◌++◌, length, arith,
}
use platform_rally_extension.Timing.Stopwatch.{
  Lap, time_parts, Stopwatch, fresh, since, ticked, tick, start, pause, reset, last_elapsed, lap,
  Step, frame, started, paused, cleared, lapped, Reach, here, next,
}

-- The parts of a time are within their bounds and make up the time, to the hundredth of a second.
pub time_parts_lem :
    (ms : ℕ)
    → let t = time_parts ms in
      (t.m < 60)
      × (t.s < 60)
      × (t.cs < 100)
      × (((t.h * 60 + t.m) * 60 + t.s) * 1000 + t.cs * 10 + ms % 10 ≡ ms)
unfolding time_parts
time_parts_lem ms = (omega arith, omega arith, omega arith, omega arith)

abbrev pub total_split : List Lap → ℕ
total_split [] = 0
total_split (l ∷ ls) = l.split + total_split ls

last_elapsed-append : (ls : List Lap) (l : Lap) → last_elapsed (ls ++ l ∷ []) ≡ l.elapsed
last_elapsed-append [] l = refl
last_elapsed-append (k ∷ []) l = refl
last_elapsed-append (k ∷ j ∷ js) l = last_elapsed-append (j ∷ js) l

total_split-append :
    (ls : List Lap) (l : Lap) → total_split (ls ++ l ∷ []) ≡ total_split ls + l.split
total_split-append [] l = omega arith
total_split-append (k ∷ ks) l = omega (arith, total_split-append ks l)

abbrev pub is_there : Option ℕ → Bool
is_there none = false
is_there (some s) = true

abbrev pub StartBound : ℕ → Option ℕ → Type 0
StartBound clock none = Unit
StartBound clock (some s) = s ≤ clock

pub record IsTimed (w : Stopwatch) : Type 0 where
  pub shown : w.elapsed ≤ w.base_ref + since w.clock w.start_ref
  pub begun : StartBound w.clock w.start_ref
  pub still : w.running ≡ is_there w.start_ref
  pub lapped_before : last_elapsed w.laps ≤ w.elapsed
  pub total : total_split w.laps ≡ last_elapsed w.laps

since_grows : (o : Option ℕ) (c n : ℕ) → c ≤ n → since c o ≤ since n o
since_grows none c n h = omega arith
since_grows (some s) c n h = omega (arith, h)

begun_later : (o : Option ℕ) (c n : ℕ) → c ≤ n → StartBound c o → StartBound n o
begun_later none c n h b = tt
begun_later (some s) c n h b = omega (arith, h, b)

not_started : (o : Option ℕ) (now : ℕ) → is_there o ≡ false → since now o ≡ 0
not_started none now e = refl
not_started (some s) now e = absurd (cc e)

ticked-IsTimed :
    (now : ℕ) (o : Option ℕ) (w : Stopwatch)
    → w.clock ≤ now
    → w.start_ref ≡ o
    → IsTimed w
    → IsTimed (ticked now o w)
ticked-IsTimed now none w c e i = record {
  shown = omega (arith, i.shown, since_grows w.start_ref w.clock now c);
  begun = begun_later w.start_ref w.clock now c i.begun;
  still = i.still;
  lapped_before = i.lapped_before;
  total = i.total;
}
ticked-IsTimed now (some s) w c e i = record {
  shown = omega (arith, ap (since now) e);
  begun = begun_later w.start_ref w.clock now c i.begun;
  still = i.still;
  lapped_before = omega (arith, i.lapped_before, i.shown, ap (since w.clock) e, c);
  total = i.total;
}

Step-IsTimed : {w v : Stopwatch} → Step w v → IsTimed w → IsTimed v
unfolding tick start pause reset lap
Step-IsTimed (frame now w c) i = ticked-IsTimed now w.start_ref w c refl i
Step-IsTimed (started now w c r) i = record {
  shown = omega (arith, i.shown, not_started w.start_ref w.clock (sym i.still ∙ r));
  begun = omega arith;
  still = refl;
  lapped_before = i.lapped_before;
  total = i.total;
}
Step-IsTimed (paused now w c) i = record {
  shown = omega (arith, i.shown, since_grows w.start_ref w.clock now c);
  begun = tt;
  still = refl;
  lapped_before = i.lapped_before;
  total = i.total;
}
Step-IsTimed (cleared now w c) i = record {
  shown = omega arith;
  begun = tt;
  still = refl;
  lapped_before = omega arith;
  total = refl;
}
Step-IsTimed (lapped w) i =
    let l : Lap = record {
      n = length w.laps + 1;
      elapsed = w.elapsed;
      split = w.elapsed - last_elapsed w.laps;
    } in
    record {
      shown = i.shown;
      begun = i.begun;
      still = i.still;
      lapped_before = omega (arith, last_elapsed-append w.laps l);
      total = omega (
        arith,
        last_elapsed-append w.laps l,
        total_split-append w.laps l,
        i.total,
        i.lapped_before,
      );
    }

Reach-IsTimed : {now : ℕ} {w : Stopwatch} → Reach (fresh now) w → IsTimed w
Reach-IsTimed here = record {
  shown = omega arith;
  begun = tt;
  still = refl;
  lapped_before = omega arith;
  total = refl;
}
Reach-IsTimed (next r st) = Step-IsTimed st (Reach-IsTimed r)

-- However the watch is started, paused, reset and lapped, the splits of its laps add up to the time
-- of the last lap, which is not after the time shown, and that not after the time that has run.
pub Reach-total_split :
    {now : ℕ} {w : Stopwatch}
    → Reach (fresh now) w
    → (total_split w.laps ≡ last_elapsed w.laps)
      × (last_elapsed w.laps ≤ w.elapsed)
      × (w.elapsed ≤ w.base_ref + since w.clock w.start_ref)
Reach-total_split r = let i = Reach-IsTimed r in (i.total, i.lapped_before, i.shown)
