-- ===== src/Timing/WakeLock.antt =====
-- web-rally/src/hooks/useWakeLock.ts: the screen lock that is held while the stopwatch runs. The
-- browser has the API; its locks are numbered as they are granted.
pub mod Released
mod Tests
use platform_rally_extension.Base.{
  ℕ, suc, ◌+◌, Bool, true, false, ◌&&◌, not, if◌then◌else◌, ◌==◌, Same-nat, Option, none, some,
  List, [], ◌∷◌, ◌≡◌, any, filter,
}

-- One run of the effect: its variables, the requests it waits for, and the locks that the browser
-- has granted and not released.
pub record Lock : Type 0 where
  pub cancelled : Bool
  pub sentinel : Option ℕ
  pub requests : ℕ
  pub held : List ℕ
  pub granted : ℕ

abbrev pub is_held : Option ℕ → List ℕ → Bool
is_held none held = false
is_held (some lock) held = any (λ l. l == lock) held

-- `acquire`, up to its `await`.
unfoldable pub acquire : Lock → Lock
acquire w = if is_held w.sentinel w.held then w else record w { requests = w.requests + 1 }

-- The effect, for an `active` clock.
abbrev pub initial : Lock
initial = record { cancelled = false; sentinel = none; requests = 0; held = []; granted = 0 }

abbrev pub mounted : Lock
mounted = record initial { requests = 1 }

-- The rest of `acquire`, where the request is granted, and where it is refused; `others` are the
-- requests that still wait.
unfoldable pub on_granted : ℕ → Lock → Lock
on_granted others w =
    if w.cancelled then record w { requests = others; granted = w.granted + 1 } else record w {
      requests = others;
      held = w.granted ∷ w.held;
      sentinel = some w.granted;
      granted = w.granted + 1;
    }

unfoldable pub on_refused : ℕ → Lock → Lock
on_refused others w = record w { requests = others }

-- The browser releases every lock of a page that is hidden.
unfoldable pub on_hidden : Lock → Lock
on_hidden w = record w { held = [] }

-- The listener, which the cleanup removes.
unfoldable pub on_visible : Lock → Lock
on_visible w = if w.cancelled then w else acquire w

abbrev pub without : Option ℕ → List ℕ → List ℕ
without none held = held
without (some lock) held = filter (λ l. not (l == lock)) held

unfoldable pub cleanup : Lock → Lock
cleanup w = record w { cancelled = true; held = without w.sentinel w.held }

-- The events, in an order in which the page does not become visible while a request waits.
pub data Step : Lock → Lock → Type 0 where
  was_granted : (others : ℕ) (w : Lock) → w.requests ≡ suc others → Step w (on_granted others w)
  was_refused : (others : ℕ) (w : Lock) → w.requests ≡ suc others → Step w (on_refused others w)
  hidden : (w : Lock) → Step w (on_hidden w)
  visible : (w : Lock) → w.requests ≡ 0 → Step w (on_visible w)
  cleaned : (w : Lock) → Step w (cleanup w)

pub data Reach (w : Lock) : Lock → Type 0 where
  here : Reach w w
  next : {v u : Lock} → Reach w v → Step v u → Reach w u
