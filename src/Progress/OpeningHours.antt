-- ===== src/Progress/OpeningHours.antt =====
-- web-rally/src/pages/team-progress/checkpointHours.ts, and the rule of the server that it repeats:
-- `is_open_at` and `opening_state` of api-rally/app/services/route_stages.py and `hours_block_reason`
-- of route_progress.py. Times are milliseconds since the epoch.
use Prim.Native.String
use platform_rally_extension.Base.{
  ℕ, ◌≡◌, refl, sym, ◌∙◌, ap, Bool-cases, inl, inr, ltb, Bool, true, false, not, if◌then◌else◌,
  ◌==◌, Same-text, String, Option, none, some,
}
use platform_rally_extension.Auth.Storage.{is_there}

-- `new Date(value).getTime()`, which is none for a NaN, and `formatTime`, the clock of the device.
pub record Clock : Type 0 where
  pub parse : String → Option ℕ
  pub format_time : ℕ → String

-- The bounds as the API sends them; an absent one is `undefined` or null.
pub record Hours : Type 0 where
  pub available_from : Option String
  pub available_until : Option String

abbrev pub is_before : ℕ → Option ℕ → Bool
is_before now none = false
is_before now (some from) = ltb now from

abbrev pub is_after : ℕ → Option ℕ → Bool
is_after now none = false
is_after now (some until) = ltb until now

module _ (clock : Clock) where
  abbrev pub parse_date : Option String → Option ℕ
  parse_date none = none
  parse_date (some value) = if value == "" then none else clock.parse value

  abbrev pub opens_text : Option ℕ → String
  opens_text none = ""
  opens_text (some from) =
      String.◌++◌ "Este posto ainda não abriu. Abre às " (String.◌++◌ (clock.format_time from) ".")

  abbrev pub closed_text : Option ℕ → String
  closed_text none = ""
  closed_text (some until) =
      String.◌++◌ "Este posto já fechou (às " (String.◌++◌ (clock.format_time until) ").")

  -- The part of the function after the two dates are read.
  abbrev pub notice_at : Option ℕ → Option ℕ → ℕ → Option String
  notice_at from until now =
      if is_before now from
      then some (opens_text from)
      else if is_after now until
      then some (closed_text until)
      else none

  unfoldable pub checkpoint_opening_notice : Hours → ℕ → Option String
  checkpoint_opening_notice checkpoint now =
      notice_at (parse_date checkpoint.available_from) (parse_date checkpoint.available_until) now

unfoldable pub is_open_at : Option ℕ → Option ℕ → ℕ → Bool
is_open_at available_from available_until now =
    if is_before now available_from then false else not (is_after now available_until)

pub data OpeningState : Type 0 where
  open_now not_yet closed : OpeningState

unfoldable pub opening_state : Option ℕ → Option ℕ → ℕ → OpeningState
opening_state available_from available_until now =
    if is_before now available_from
    then not_yet
    else if is_after now available_until
    then closed
    else open_now

-- `enabled` is the setting `checkpoint_hours_enabled`.
unfoldable pub hours_block_reason : Bool → Option ℕ → Option ℕ → ℕ → Option OpeningState
hours_block_reason enabled available_from available_until now =
    if not enabled
    then none
    else if is_open_at available_from available_until now
    then none
    else some (opening_state available_from available_until now)

-- The page reads the server's bounds off the texts of the response.
pub record Agrees (clock : Clock) (hours : Hours) (from until : Option ℕ) : Type 0 where
  pub from_read : parse_date clock hours.available_from ≡ from
  pub until_read : parse_date clock hours.available_until ≡ until

-- What the page is to say for each reason, word for word.
abbrev pub text_of : Clock → Option ℕ → Option ℕ → OpeningState → Option String
text_of clock (some from) until not_yet =
    some (
      String.◌++◌ "Este posto ainda não abriu. Abre às " (String.◌++◌ (clock.format_time from) "."))
text_of clock from (some until) closed =
    some (String.◌++◌ "Este posto já fechou (às " (String.◌++◌ (clock.format_time until) ")."))
text_of clock from until reason = none

abbrev pub reason_text : Clock → Option ℕ → Option ℕ → Option OpeningState → Option String
reason_text clock from until none = none
reason_text clock from until (some reason) = text_of clock from until reason

checkpoint_opening_notice-notice_at :
    (clock : Clock) (hours : Hours) (from until : Option ℕ) (now : ℕ)
    → Agrees clock hours from until
    → checkpoint_opening_notice clock hours now ≡ notice_at clock from until now
unfolding checkpoint_opening_notice
checkpoint_opening_notice-notice_at clock hours from until now a =
    ap (λ f. notice_at clock f (parse_date clock hours.available_until) now) a.from_read
    ∙ ap (λ u. notice_at clock from u now) a.until_read

reason_at :
    (from until : Option ℕ) (now : ℕ)
    → hours_block_reason true from until now ≡ (
        if is_before now from
        then some not_yet
        else if is_after now until
        then some closed
        else none)
unfolding hours_block_reason is_open_at opening_state
reason_at from until now = elim (Bool-cases (is_before now from)) [
  | inl early ↦ rw early refl
  | inr on_time ↦ elim (Bool-cases (is_after now until)) [
    | inl late ↦ rw (on_time, late) refl
    | inr free ↦ rw (on_time, free) refl
  ]
]

notice_at-text :
    (clock : Clock) (from until : Option ℕ) (now : ℕ)
    → notice_at clock from until now
      ≡ reason_text clock from until (
          if is_before now from
          then some not_yet
          else if is_after now until
          then some closed
          else none)
notice_at-text clock none none now = refl
notice_at-text clock none (some until) now = elim (Bool-cases (ltb until now)) [
  | inl late ↦ rw late refl
  | inr free ↦ rw free refl
]
notice_at-text clock (some from) none now = elim (Bool-cases (ltb now from)) [
  | inl early ↦ rw early refl
  | inr on_time ↦ rw on_time refl
]
notice_at-text clock (some from) (some until) now = elim (Bool-cases (ltb now from)) [
  | inl early ↦ rw early refl
  | inr on_time ↦ elim (Bool-cases (ltb until now)) [
    | inl late ↦ rw (on_time, late) refl
    | inr free ↦ rw (on_time, free) refl
  ]
]

notice_at-open :
    (clock : Clock) (from until : Option ℕ) (now : ℕ)
    → is_there (notice_at clock from until now) ≡ not (is_open_at from until now)
unfolding is_open_at
notice_at-open clock from until now = elim (Bool-cases (is_before now from)) [
  | inl early ↦ rw early refl
  | inr on_time ↦ elim (Bool-cases (is_after now until)) [
    | inl late ↦ rw (on_time, late) refl
    | inr free ↦ rw (on_time, free) refl
  ]
]

-- For a page that reads the server's bounds off the response, and hours that are enforced: the page's
-- notice is, word for word, the opening time if the server's reason to block is that the checkpoint
-- is not open yet, the closing time if the reason is that it is closed, and nothing if the server has
-- no reason; and there is a notice exactly when the server's `is_open_at` is false.
pub checkpoint_opening_notice_lem :
    (clock : Clock) (hours : Hours) (from until : Option ℕ) (now : ℕ)
    → Agrees clock hours from until
    → (checkpoint_opening_notice clock hours now
        ≡ reason_text clock from until (hours_block_reason true from until now))
      × (is_there (checkpoint_opening_notice clock hours now) ≡ not (is_open_at from until now))
checkpoint_opening_notice_lem clock hours from until now a =
    let e = checkpoint_opening_notice-notice_at clock hours from until now a in
    (
      e
          ∙ notice_at-text clock from until now
          ∙ ap (reason_text clock from until) (sym (reason_at from until now)),
      ap is_there e ∙ notice_at-open clock from until now,
    )
