-- ===== src/Pwa/Badge.antt =====
-- The badge of the app's icon: `readBadgeCount`, `writeBadgeCount`, `bumpAppBadge`, `resetAppBadge`
-- and the `clearBadge` message of web-rally/src/sw.ts, and web-rally/src/lib/appBadge.ts.
pub mod Counter
use platform_rally_extension.Base.{
  ℕ, zero, suc, ◌+◌, String, Bool, true, false, if◌then◌else◌, ◌==◌, Same-text, Option, none, some,
  get_or, List, [], ◌∷◌, ◌++◌,
}

-- `String(n)`, and `Number(text)`, which is none for a NaN. The counts are natural numbers.
pub record Numerals : Type 0 where
  pub to_string : ℕ → String
  pub to_number : String → Option ℕ

-- Whether the page's `navigator` has `setAppBadge` and `clearAppBadge`, and whether the worker's
-- registration has them. The Badging API puts them on `navigator` only.
pub record Api : Type 0 where
  pub page_sets : Bool
  pub page_clears : Bool
  pub worker_sets : Bool
  pub worker_clears : Bool

-- The worker's cache under its key, and what the icon shows, where 0 is no badge.
pub record Device : Type 0 where
  pub cached : Option String
  pub icon : ℕ
  pub api : Api

module _ (numerals : Numerals) where
  -- `Number(text) || 0`
  abbrev pub count_in : Option String → ℕ
  count_in none = 0
  count_in (some text) = get_or (numerals.to_number text) 0

  unfoldable pub read_badge_count : Device → ℕ
  read_badge_count d = count_in d.cached

  unfoldable pub write_badge_count : ℕ → Device → Device
  write_badge_count count d = record d { cached = some (numerals.to_string count) }

  -- `reg.setAppBadge?.(count)`
  unfoldable pub set_icon : ℕ → Device → Device
  set_icon count d = record d { icon = if d.api.worker_sets then count else d.icon }

  -- `reg.clearAppBadge?.()`
  unfoldable pub clear_icon : Device → Device
  clear_icon d = record d { icon = if d.api.worker_clears then 0 else d.icon }

  -- What follows the first `await` of `bumpAppBadge`, which has read `count`.
  unfoldable pub bump_from : ℕ → Device → Device
  bump_from count d = set_icon (count + 1) (write_badge_count (count + 1) d)

  unfoldable pub bump_app_badge : Device → Device
  bump_app_badge d = bump_from (read_badge_count d) d

  unfoldable pub reset_app_badge : Device → Device
  reset_app_badge d = clear_icon (write_badge_count 0 d)

  -- The listener for messages that resets the badge; `action` is `event.data?.action`.
  unfoldable pub on_badge_message : Option String → Device → Device
  on_badge_message none d = d
  on_badge_message (some action) d = if action == "clearBadge" then reset_app_badge d else d

  -- `navigator.clearAppBadge()`, where it is there
  abbrev pub clear_page_icon : Device → Device
  clear_page_icon d = record d { icon = if d.api.page_clears then 0 else d.icon }

  -- `setAppBadge` of the page. A rejected promise is caught.
  unfoldable pub set_app_badge : ℕ → Device → Device
  set_app_badge zero d = if d.api.page_sets then clear_page_icon d else d
  set_app_badge (suc n) d = record d { icon = if d.api.page_sets then suc n else d.icon }

  -- `clearAppBadge` of the page, and the actions that it posts to the worker that controls it.
  unfoldable pub clear_app_badge : Bool → Device → Device × List String
  clear_app_badge controlled d = (clear_page_icon d, if controlled then "clearBadge" ∷ [] else [])
