-- ===== src/Progress/Scanner.antt =====
-- web-rally/src/hooks/useQRCodeScanner.ts: the loop that looks for a QR code in the camera's picture.
-- The video, the canvas and its context are there; the frames that the browser will call are
-- numbered from 1.
pub mod Once
use platform_rally_extension.Base.{
  ℕ, suc, ◌+◌, Bool, true, false, not, if◌then◌else◌, ◌==◌, Same-nat, String, Option, none, some,
  List, [], ◌∷◌, ◌++◌, filter, any, ◌≡◌,
}

-- What a look at the picture brings: no dimensions yet, no code, a code, or an error that is thrown.
pub data Look : Type 0 where
  not_ready nothing broken : Look
  code : String → Look

-- `scan_interval_ref` is the frame that was asked for last; `detected` the codes that `onDetectCode`
-- got, `starts` the calls of `startScanning`.
pub record Scanner : Type 0 where
  pub is_active : Bool
  pub error : Option String
  pub scan_interval_ref : Option ℕ
  pub frames : List ℕ
  pub asked : ℕ
  pub detected : List String
  pub starts : ℕ

abbrev pub initial : Scanner
initial = record {
  is_active = false;
  error = none;
  scan_interval_ref = none;
  frames = [];
  asked = 0;
  detected = [];
  starts = 0;
}

-- `scanIntervalRef.current = requestAnimationFrame(scan)`
abbrev pub ask_frame : Scanner → Scanner
ask_frame s = record s {
  scan_interval_ref = some (suc s.asked);
  frames = s.frames ++ suc s.asked ∷ [];
  asked = suc s.asked;
}

-- `scan`, of a render in which the scanner is active.
unfoldable pub scan : Look → Scanner → Scanner
scan not_ready s = ask_frame s
scan nothing s = ask_frame s
scan broken s = record s { error = some "Erro ao processar câmara" }
scan (code text) s = record s { detected = s.detected ++ text ∷ []; is_active = false }

-- `cancelAnimationFrame(scanIntervalRef.current)`
abbrev pub without : Option ℕ → List ℕ → List ℕ
without none frames = frames
without (some id) frames = filter (λ f. not (f == id)) frames

abbrev pub cancel_frame : Scanner → Scanner
cancel_frame s = record s { frames = without s.scan_interval_ref s.frames }

unfoldable pub start_scanning : Scanner → Scanner
start_scanning s = record s { is_active = true; error = none; starts = s.starts + 1 }

unfoldable pub stop_scanning : Scanner → Scanner
stop_scanning s = cancel_frame (record s { is_active = false })

-- The effect after a change of `isActive` or of the caller's function: its cleanup, and a scan.
unfoldable pub run_effect : Look → Scanner → Scanner
run_effect look s = let s' = cancel_frame s in if s'.is_active then scan look s' else s'

-- The browser calls a frame.
unfoldable pub on_frame : ℕ → Look → Scanner → Scanner
on_frame id look s = scan look (record s { frames = without (some id) s.frames })

pub data Step : Scanner → Scanner → Type 0 where
  started : (s : Scanner) → Step s (start_scanning s)
  stopped : (s : Scanner) → Step s (stop_scanning s)
  effect : (look : Look) (s : Scanner) → Step s (run_effect look s)
  frame :
      (id : ℕ) (look : Look) (s : Scanner)
      → any (λ f. f == id) s.frames ≡ true
      → Step s (on_frame id look s)

pub data Reach (s : Scanner) : Scanner → Type 0 where
  here : Reach s s
  next : {t u : Scanner} → Reach s t → Step t u → Reach s u
