-- ===== src/Timing/Countdown.antt =====
-- web-rally/src/pages/home/useCountdown.ts: the phase of an event and the time that is left.
-- Instants are milliseconds; a missing or unreadable one is nothing (`NaN` in the source).
use platform_rally_extension.Base.{
  ℕ, ◌+◌, ◌-◌, ◌*◌, ◌/◌, ◌%◌, ◌≤◌, ◌<◌, ◌≡◌, refl, Bool, true, false, ◌&&◌, not, if◌then◌else◌, ltb,
  leb, Option, none, some, arith, inl, inr, Bool-cases,
}

pub data CountdownPhase : Type 0 where
  pre live post unset : CountdownPhase

pub record Breakdown : Type 0 where
  pub days : ℕ
  pub hours : ℕ
  pub minutes : ℕ
  pub seconds : ℕ

-- Of a time that is left; one that is negative counts as 0, like the source's `Math.max`.
unfoldable pub breakdown : ℕ → Breakdown
breakdown ms =
    let total = ms / 1000 in
    record {
      days = total / 86400;
      hours = (total % 86400) / 3600;
      minutes = (total % 3600) / 60;
      seconds = total % 60;
    }

-- Comparisons with `NaN` are false.
abbrev pub before : ℕ → Option ℕ → Bool
before now none = false
before now (some t) = ltb now t

abbrev pub after : ℕ → Option ℕ → Bool
after now none = false
after now (some t) = ltb t now

abbrev pub started : ℕ → Option ℕ → Bool
started now none = false
started now (some t) = leb t now

unfoldable pub phase_at : Option ℕ → Option ℕ → ℕ → CountdownPhase
phase_at start end now =
    if before now start
    then pre
    else if after now end
    then post
    else if started now start && not (after now end)
    then live
    else unset

abbrev pub target : CountdownPhase → Option ℕ → Option ℕ → Option ℕ
target pre start end = start
target _ start end = end

abbrev pub remaining : ℕ → Option ℕ → ℕ
remaining now none = 0
remaining now (some t) = t - now

unfoldable pub countdown : Option ℕ → Option ℕ → ℕ → CountdownPhase × Breakdown
countdown start end now =
    let phase = phase_at start end now in
    (phase, breakdown (remaining now (target phase start end)))

-- The parts are within their bounds and make up the whole seconds.
pub breakdown_lem :
    (ms : ℕ)
    → let b = breakdown ms in
      (b.hours < 24)
      × (b.minutes < 60)
      × (b.seconds < 60)
      × (((b.days * 24 + b.hours) * 60 + b.minutes) * 60 + b.seconds ≡ ms / 1000)
unfolding breakdown
breakdown_lem ms = (omega arith, omega arith, omega arith, omega arith)

abbrev pub phase_of : ℕ → ℕ → ℕ → CountdownPhase
phase_of start end now = if ltb now start then pre else if leb now end then live else post

-- An event with a start and an end in order goes through its phases by the two instants, both of
-- them live; the time counted down is to the start before it, to the end during the event, and none
-- is left after it.
pub countdown_lem :
    (start end now : ℕ)
    → start ≤ end
    → countdown (some start) (some end) now
      ≡ (phase_of start end now, breakdown (if ltb now start then start - now else end - now))
unfolding countdown phase_at
countdown_lem start end now h = elim (Bool-cases (ltb now start)) [
  | inl b ↦ rw b refl
  | inr b ↦
      let begun : leb start now ≡ true = ground arith in
      elim (Bool-cases (ltb end now)) [
        | inl a ↦ let over : leb now end ≡ false = ground arith in rw (b, a, over) refl
        | inr a ↦ let on : leb now end ≡ true = ground arith in rw (b, a, begun, on) refl
      ]
]
