-- ===== src/Timing/WakeLock/Tests.antt =====
-- The screen lock in a short run.
use platform_rally_extension.Base.{◌≤◌, ◌≡◌, ◌⊎◌, refl, false, [], length}
use platform_rally_extension.Timing.WakeLock.{
  mounted, on_granted, on_hidden, on_visible, cleanup, was_granted, hidden, visible, cleaned, Reach,
  here, next,
}
use platform_rally_extension.Timing.WakeLock.Released.{Reach-IsReleased}

wake_lock-Reach : Reach mounted (cleanup (on_visible (on_hidden (on_granted 0 mounted))))
unfolding on_granted on_hidden
wake_lock-Reach =
    next (next (next (next here (was_granted 0 _ refl)) (hidden _)) (visible _ refl)) (cleaned _)

wake_lock_example :
    (length (cleanup (on_visible (on_hidden (on_granted 0 mounted)))).held ≤ 1)
    × (((cleanup (on_visible (on_hidden (on_granted 0 mounted)))).cancelled ≡ false)
        ⊎ ((cleanup (on_visible (on_hidden (on_granted 0 mounted)))).held ≡ []))
wake_lock_example = Reach-IsReleased wake_lock-Reach
