-- ===== src/Checkpoints/Tests/Tally.antt =====
-- A browser in which whole numbers are written as tallies, for the tests of the form.
use Prim.Native.Nat.{ℕ, zero, suc}
use Prim.Native.Char.{nul}
use Prim.Native.String.{String, [], ◌∷◌}
use mathlib.Core.Path.{◌≡◌, refl, ap}
use mathlib.Core.Option.{some}
use platform_rally_extension.Checkpoints.Form.{Browser}
use platform_rally_extension.Checkpoints.Form.Unedited.{IsStandard}

abbrev marks : ℕ → String
marks zero = []
marks (suc n) = nul ∷ marks n

abbrev count_marks : String → ℕ
count_marks [] = 0
count_marks (c ∷ s) = suc (count_marks s)

abbrev pub show_tally : ℕ → String
show_tally n = nul ∷ marks n

abbrev pub read_tally : String → ℕ
read_tally [] = 0
read_tally (c ∷ s) = count_marks s

count_marks-marks : (n : ℕ) → count_marks (marks n) ≡ n
count_marks-marks zero = refl
count_marks-marks (suc n) = ap (λ k. suc k) (count_marks-marks n)

-- One instant, one number with a fraction, and no time zone.
abbrev pub small_browser : Browser (Unit {0}) (Unit {0}) (Unit {0})
small_browser = record {
  trim = λ s. s;
  parse_float = λ s. tt;
  show_float = λ x. "1";
  parse_int = read_tally;
  show_int = show_tally;
  parse_date = λ s. some tt;
  to_iso_string = λ t. "2026-05-09T10:00";
  offset_ms = λ t. tt;
  minus = λ t m. t;
  slice_16 = λ s. s;
}

pub small_browser-IsStandard : IsStandard small_browser
small_browser-IsStandard = record {
  float_read = λ x. refl;
  float_shown = λ x e. cc e;
  int_read = count_marks-marks;
  int_shown = λ n e. cc e;
  trim_empty = refl;
}
