-- ===== src/Pwa/Badge/Counter.antt =====
-- The badge as a counter of the pushes since it was last cleared.
use platform_rally_extension.Base.{
  ℕ, ◌+◌, ◌≡◌, String, refl, any, ◌||◌, ◌∙◌, ap, Bool, true, false, if◌then◌else◌, ◌==◌, Same-text,
  Option, none, some, get_or, List, [], ◌∷◌, arith, Bool-cases, inl, inr,
}
use platform_rally_extension.Pwa.Badge.{
  Numerals, Api, Device, read_badge_count, write_badge_count, set_icon, clear_icon, bump_from,
  bump_app_badge, reset_app_badge, on_badge_message, clear_page_icon, clear_app_badge,
}

-- `Number` reads back what `String` wrote.
abbrev pub ReadsBack : Numerals → Type 0
ReadsBack numerals = (n : ℕ) → numerals.to_number (numerals.to_string n) ≡ some n

-- A push, a message to the worker, and the page coming to the foreground, whose message the worker
-- then gets; each is handled before the next.
pub data Event : Type 0 where
  pushed : Event
  message : Option String → Event
  focused : Bool → Event

-- The number of pushes since it was last cleared, and what the icon shows of it.
pub record Counter : Type 0 where
  pub count : ℕ
  pub shown : ℕ

unfoldable pub cleared : Api → Counter → Counter
cleared api c = record { count = 0; shown = if api.worker_clears then 0 else c.shown }

abbrev pub hidden : Api → Counter → Counter
hidden api c = record c { shown = if api.page_clears then 0 else c.shown }

unfoldable pub counted : Api → Event → Counter → Counter
counted api pushed c = record {
  count = c.count + 1;
  shown = if api.worker_sets then c.count + 1 else c.shown;
}
counted api (message none) c = c
counted api (message (some action)) c = if action == "clearBadge" then cleared api c else c
counted api (focused controlled) c = if controlled then cleared api (hidden api c) else hidden api c

unfoldable pub counted_all : Api → List Event → Counter → Counter
counted_all api [] c = c
counted_all api (e ∷ es) c = counted_all api es (counted api e c)

abbrev pub is_focus : Event → Bool
is_focus (focused controlled) = true
is_focus _ = false

-- The Badging API as it is documented: on `navigator`, and not on the registration.
abbrev pub documented : Api
documented = record {
  page_sets = true;
  page_clears = true;
  worker_sets = false;
  worker_clears = false;
}

if_or : (b c : Bool) (n : ℕ) → (if b then 0 else (if c then 0 else n)) ≡ (if c || b then 0 else n)
if_or true c n = ground arith
if_or false c n = ground arith

module _ (numerals : Numerals) where
  abbrev pub deliver : List String → Device → Device
  deliver [] d = d
  deliver (action ∷ actions) d = deliver actions (on_badge_message numerals (some action) d)

  unfoldable pub handle : Event → Device → Device
  handle pushed d = bump_app_badge numerals d
  handle (message action) d = on_badge_message numerals action d
  handle (focused controlled) d =
      let (d', actions) = clear_app_badge numerals controlled d in deliver actions d'

  unfoldable pub handle_all : List Event → Device → Device
  handle_all [] d = d
  handle_all (e ∷ es) d = handle_all es (handle e d)

  pub record Shows (api : Api) (c : Counter) (d : Device) : Type 0 where
    pub counts : read_badge_count numerals d ≡ c.count
    pub shows : d.icon ≡ c.shown
    pub has : d.api ≡ api

  read_badge_count-bump :
      ReadsBack numerals
      → (n : ℕ) (d : Device) → read_badge_count numerals (bump_from numerals n d) ≡ n + 1
  unfolding bump_from write_badge_count set_icon read_badge_count
  read_badge_count-bump back n d = ap (λ o. get_or o 0) (back (n + 1))

  module _ (api : Api) where
    bump-Shows :
        ReadsBack numerals
        → (c : Counter) (d : Device) → Shows api c d
        → Shows api (counted api pushed c) (bump_app_badge numerals d)
    unfolding counted bump_app_badge bump_from read_badge_count write_badge_count set_icon
    bump-Shows back c d s =
        let n = ap (λ n. n + 1) s.counts in
        record {
          counts = ap (λ o. get_or o 0) (back _) ∙ n;
          shows = rw (s.has, s.shows, s.counts) refl;
          has = s.has;
        }

    reset-Shows :
        ReadsBack numerals
        → (c : Counter) (d : Device) → Shows api c d
        → Shows api (cleared api c) (reset_app_badge numerals d)
    unfolding reset_app_badge read_badge_count write_badge_count clear_icon cleared
    reset-Shows back c d s = record {
      counts = ap (λ o. get_or o 0) (back 0);
      shows = rw (s.has, s.shows) refl;
      has = s.has;
    }

    clear_page_icon-Shows :
        (c : Counter) (d : Device)
        → Shows api c d
        → Shows api (hidden api c) (clear_page_icon numerals d)
    unfolding read_badge_count
    clear_page_icon-Shows c d s = record {
      counts = s.counts;
      shows = rw (s.has, s.shows) refl;
      has = s.has;
    }

    handle-Shows :
        ReadsBack numerals
        → (e : Event) (c : Counter) (d : Device) → Shows api c d
        → Shows api (counted api e c) (handle e d)
    unfolding handle on_badge_message counted clear_app_badge
    handle-Shows back pushed c d s = bump-Shows back c d s
    handle-Shows back (message none) c d s = s
    handle-Shows back (message (some action)) c d s = elim (Bool-cases (action == "clearBadge")) [
      | inl same ↦ rw same (reset-Shows back c d s)
      | inr other ↦ rw other s
    ]
    handle-Shows back (focused true) c d s =
        reset-Shows back (hidden api c) (clear_page_icon numerals d) (clear_page_icon-Shows c d s)
    handle-Shows back (focused false) c d s = clear_page_icon-Shows c d s

    handle_all-Shows :
        ReadsBack numerals
        → (es : List Event) (c : Counter) (d : Device) → Shows api c d
        → Shows api (counted_all api es c) (handle_all es d)
    unfolding handle_all counted_all
    handle_all-Shows back [] c d s = s
    handle_all-Shows back (e ∷ es) c d s =
        handle_all-Shows back es (counted api e c) (handle e d) (handle-Shows back e c d s)

  -- Whatever parts of the Badging API there are, and whatever events follow each other, one handled
  -- before the next: the worker's cache holds the number of pushes since the last message that cleared
  -- it, and the icon shows what the counter does, which changes with a push only if the worker's
  -- registration has `setAppBadge`.
  pub handle_all-refines :
      ReadsBack numerals
      → (api : Api) (es : List Event) (c : Counter) (d : Device) → Shows api c d
      → (read_badge_count numerals (handle_all es d) ≡ (counted_all api es c).count)
        × ((handle_all es d).icon ≡ (counted_all api es c).shown)
  handle_all-refines back api es c d s =
      let t = handle_all-Shows api back es c d s in (t.counts, t.shows)

  reset-never_shown :
      (d : Device)
      → d.api ≡ documented
      → ((reset_app_badge numerals d).icon ≡ d.icon)
        × ((reset_app_badge numerals d).api ≡ documented)
  unfolding reset_app_badge write_badge_count clear_icon
  reset-never_shown d e = (rw e refl, e)

  handle-never_shown :
      (event : Event) (d : Device)
      → d.api ≡ documented
      → ((handle event d).icon ≡ (if is_focus event then 0 else d.icon))
        × ((handle event d).api ≡ documented)
  unfolding handle on_badge_message clear_app_badge bump_app_badge bump_from write_badge_count
      set_icon
  handle-never_shown pushed d e = (rw e refl, e)
  handle-never_shown (message none) d e = (refl, e)
  handle-never_shown (message (some action)) d e = elim (Bool-cases (action == "clearBadge")) [
    | inl same ↦ rw same (reset-never_shown d e)
    | inr other ↦ rw other (refl, e)
  ]
  handle-never_shown (focused true) d e =
      let (icon, api) = reset-never_shown (clear_page_icon numerals d) e in (icon ∙ rw e refl, api)
  handle-never_shown (focused false) d e = (rw e refl, e)

  -- In a browser that has the Badging API where it is documented, on `navigator` and not on the
  -- registration: whatever pushes and messages the worker handles, the icon stays as it was until the
  -- page comes to the foreground, and is empty from then on.
  pub handle_all-never_shown :
      (es : List Event) (d : Device)
      → d.api ≡ documented
      → (handle_all es d).icon ≡ (if any is_focus es then 0 else d.icon)
  unfolding handle_all
  handle_all-never_shown [] d e = refl
  handle_all-never_shown (event ∷ es) d e =
      let (icon, api) = handle-never_shown event d e in
      handle_all-never_shown es (handle event d) api
      ∙ ap (λ n. if any is_focus es then 0 else n) icon
      ∙ if_or (any is_focus es) (is_focus event) d.icon

  -- Two pushes raise the count by two if the second is handled after the first, and only by one if
  -- both read the count before either writes it.
  pub bump_lost :
      ReadsBack numerals
      → (d : Device)
      → (read_badge_count numerals (bump_app_badge numerals (bump_app_badge numerals d))
          ≡ read_badge_count numerals d + 2)
        × (read_badge_count numerals (
              bump_from numerals
                (read_badge_count numerals d)
                (bump_from numerals (read_badge_count numerals d) d))
            ≡ read_badge_count numerals d + 1)
  unfolding bump_app_badge
  bump_lost back d =
      let n = read_badge_count numerals d in
      (
        read_badge_count-bump back _ _
            ∙ ap (λ m. m + 1) (read_badge_count-bump back n d)
            ∙ (omega arith),
        read_badge_count-bump back n (bump_from numerals n d),
      )
