-- ===== src/Timing/Tests.antt =====
-- The watch and the countdown at concrete times.
use platform_rally_extension.Base.{◌+◌, ◌≤◌, ◌≡◌, refl, arith}
use platform_rally_extension.Timing.Stopwatch.{
  Stopwatch, fresh, since, start, tick, lap, last_elapsed, Reach, here, next, started, frame,
  lapped,
}
use platform_rally_extension.Timing.Stopwatch.Laps.{total_split, Reach-total_split}

abbrev running_watch : Stopwatch
running_watch = tick 25 (start 10 (fresh 5))

one_lap : Reach (fresh 5) (lap running_watch)
unfolding start
one_lap =
    next
      (next (next here (started 10 (fresh 5) (omega arith) refl))
        (frame 25 (start 10 (fresh 5)) (omega arith)))
      (lapped running_watch)

total_split_example :
    (total_split (lap running_watch).laps ≡ last_elapsed (lap running_watch).laps)
    × (last_elapsed (lap running_watch).laps ≤ (lap running_watch).elapsed)
    × ((lap running_watch).elapsed
        ≤ (lap running_watch).base_ref
          + since (lap running_watch).clock (lap running_watch).start_ref)
total_split_example = Reach-total_split one_lap
