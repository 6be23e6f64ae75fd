-- ===== src/Timing/Timezone/RoundTrip.antt =====
-- A date that goes into an input and comes back.
use platform_rally_extension.Base.{
  ℕ, ◌≡◌, refl, ◌∙◌, ap, true, false, if◌then◌else◌, ◌==◌, Same-nat, none, some, List, [], ◌∷◌,
  ◌++◌, any, arith, same_refl,
}
use platform_rally_extension.Timing.Timezone.{
  Calendar, split_rest, split, returned, given, pad_start, iso_of, numbers, from_numbers,
  from_parts, local_datetime_local_to_utc_iso_string, pad, local_text, text_of,
  utc_iso_string_to_local_datetime_local,
}

-- The text has no such unit.
abbrev pub Lacks : ℕ → List ℕ → Type 0
Lacks c text = any (λ d. d == c) text ≡ false

Lacks-tail : (c x : ℕ) (xs : List ℕ) → Lacks c (x ∷ xs) → ((x == c) ≡ false) × Lacks c xs
Lacks-tail c x xs h = ground arith

Lacks-join :
    (c d : ℕ) (xs ys : List ℕ) → (d == c) ≡ false → Lacks c xs → Lacks c ys → Lacks c (xs ++ d ∷ ys)
Lacks-join c d [] ys e h k = ground arith
Lacks-join c d (x ∷ xs) ys e h k =
    let (new, rest) = Lacks-tail c x xs h in rw new (Lacks-join c d xs ys e rest k)

Lacks-pad_start : (c : ℕ) (xs : List ℕ) → (48 == c) ≡ false → Lacks c xs → Lacks c (pad_start xs)
Lacks-pad_start c [] e h = ground arith
Lacks-pad_start c (x ∷ []) e h = ground arith
Lacks-pad_start c (x ∷ y ∷ xs) e h = h

split_rest-Lacks : (c : ℕ) (xs : List ℕ) → Lacks c xs → split_rest c xs ≡ (xs, [])
split_rest-Lacks c [] h = refl
split_rest-Lacks c (x ∷ xs) h =
    let (new, rest) = Lacks-tail c x xs h in
    rw new (ap (λ p. (x ∷ p.0, p.1)) (split_rest-Lacks c xs rest))

split_rest-join :
    (c : ℕ) (xs ys : List ℕ) → Lacks c xs → split_rest c (xs ++ c ∷ ys) ≡ (xs, split c ys)
split_rest-join c [] ys h = rw (same_refl c) refl
split_rest-join c (x ∷ xs) ys h =
    let (new, rest) = Lacks-tail c x xs h in
    rw new (ap (λ p. (x ∷ p.0, p.1)) (split_rest-join c xs ys rest))

abbrev to_list : List ℕ × List (List ℕ) → List (List ℕ)
to_list (part, parts) = part ∷ parts

split-one : (c : ℕ) (xs : List ℕ) → Lacks c xs → split c xs ≡ xs ∷ []
split-one c xs h = ap to_list (split_rest-Lacks c xs h)

split-join : (c : ℕ) (xs ys : List ℕ) → Lacks c xs → split c (xs ++ c ∷ ys) ≡ xs ∷ split c ys
split-join c xs ys h = ap to_list (split_rest-join c xs ys h)

given-append : (xs ys : List ℕ) → given (some xs) ≡ true → given (some (xs ++ ys)) ≡ true
given-append [] ys h = cc h
given-append (x ∷ xs) ys h = refl

given-pad_start : (xs : List ℕ) → given (some (pad_start xs)) ≡ true
given-pad_start [] = refl
given-pad_start (x ∷ []) = refl
given-pad_start (x ∷ y ∷ xs) = refl

module _ {N T : Type 0} (calendar : Calendar N T) where
  -- The number is printed in digits, with no sign, and `Number` reads it back, padded or not.
  pub record IsPlain (n : N) : Type 0 where
    pub there : given (some (calendar.digits n)) ≡ true
    pub no_dash : Lacks 45 (calendar.digits n)
    pub no_t : Lacks 84 (calendar.digits n)
    pub no_colon : Lacks 58 (calendar.digits n)
    pub reads : calendar.number (calendar.digits n) ≡ some n
    pub reads_padded : calendar.number (pad calendar n) ≡ some n

  -- The fields of a date are printed so.
  pub record HasPlainFields (t : T) : Type 0 where
    pub year : IsPlain (calendar.year t)
    pub month : IsPlain (calendar.month t)
    pub day : IsPlain (calendar.day t)
    pub hours : IsPlain (calendar.hours t)
    pub minutes : IsPlain (calendar.minutes t)

  split_date :
      (y m d : N)
      → IsPlain y
      → IsPlain m
      → IsPlain d
      → numbers calendar
          (split 45 (calendar.digits y ++ 45 ∷ (pad calendar m ++ 45 ∷ pad calendar d)))
        ≡ some y ∷ some m ∷ some d ∷ []
  split_date y m d py pm pd =
      ap (numbers calendar) (
        split-join 45 (calendar.digits y) (pad calendar m ++ 45 ∷ pad calendar d) py.no_dash
        ∙ ap (λ l. calendar.digits y ∷ l)
            (split-join 45 (pad calendar m) (pad calendar d)
                (Lacks-pad_start 45 (calendar.digits m) refl pm.no_dash)
              ∙ ap (λ l. pad calendar m ∷ l)
                  (split-one 45 (pad calendar d)
                    (Lacks-pad_start 45 (calendar.digits d) refl pd.no_dash))))
      ∙ (rw (py.reads, pm.reads_padded, pd.reads_padded) refl)

  split_time :
      (h m : N)
      → IsPlain h
      → IsPlain m
      → numbers calendar (split 58 (pad calendar h ++ 58 ∷ pad calendar m)) ≡ some h ∷ some m ∷ []
  split_time h m ph pm =
      ap (numbers calendar) (
        split-join 58 (pad calendar h) (pad calendar m)
          (Lacks-pad_start 58 (calendar.digits h) refl ph.no_colon)
        ∙ ap (λ l. pad calendar h ∷ l)
            (split-one 58 (pad calendar m)
              (Lacks-pad_start 58 (calendar.digits m) refl pm.no_colon)))
      ∙ (rw (ph.reads_padded, pm.reads_padded) refl)

  abbrev date_text : T → List ℕ
  date_text t =
      calendar.digits (calendar.year t)
      ++ 45 ∷ (pad calendar (calendar.month t) ++ 45 ∷ pad calendar (calendar.day t))

  abbrev time_text : T → List ℕ
  time_text t = pad calendar (calendar.hours t) ++ 58 ∷ pad calendar (calendar.minutes t)

  pad-Lacks_t : (n : N) → IsPlain n → Lacks 84 (pad calendar n)
  pad-Lacks_t n q = Lacks-pad_start 84 (calendar.digits n) refl q.no_t

  split_local :
      (t : T) → HasPlainFields t → split 84 (local_text calendar t) ≡ date_text t ∷ time_text t ∷ []
  split_local t p =
      let y = calendar.digits (calendar.year t) in
      let m = pad calendar (calendar.month t) in
      let d = pad calendar (calendar.day t) in
      let h = pad calendar (calendar.hours t) in
      let i = pad calendar (calendar.minutes t) in
      let rest = Lacks-join 84 45 m d refl (pad-Lacks_t _ p.month) (pad-Lacks_t _ p.day) in
      split-join 84 (date_text t) (time_text t)
        (Lacks-join 84 45 y (m ++ 45 ∷ d) refl p.year.no_t rest)
      ∙ ap (λ l. date_text t ∷ l)
          (split-one 84 (time_text t)
            (Lacks-join 84 58 h i refl (pad-Lacks_t _ p.hours) (pad-Lacks_t _ p.minutes)))

  given-date_text : (t : T) → HasPlainFields t → given (some (date_text t)) ≡ true
  given-date_text t p = given-append (calendar.digits (calendar.year t)) _ p.year.there

  from_local_text :
      (t : T)
      → HasPlainFields t
      → local_datetime_local_to_utc_iso_string calendar (some (local_text calendar t))
        ≡ iso_of calendar (
            calendar.make
              (calendar.year t)
              (calendar.month t)
              (calendar.day t)
              (calendar.hours t)
              (calendar.minutes t))
  unfolding local_datetime_local_to_utc_iso_string
  from_local_text t p =
      let date = split_date _ _ _ p.year p.month p.day in
      let time = split_time _ _ p.hours p.minutes in
      let whole : given (some (local_text calendar t)) ≡ true =
        given-append (date_text t) (84 ∷ time_text t) (given-date_text t p) in
      let there : given (some (time_text t)) ≡ true =
        given-append (pad calendar (calendar.hours t)) _
          (given-pad_start (calendar.digits (calendar.hours t))) in
      ap (λ b. if b then from_parts calendar (split 84 (local_text calendar t)) else returned none)
        whole
      ∙ ap (from_parts calendar) (split_local t p)
      ∙ (rw (given-date_text t p, there)
          (ap (λ l. from_numbers calendar l (numbers calendar (split 58 (time_text t)))) date
            ∙ ap
                (from_numbers calendar
                  (some (calendar.year t) ∷ some (calendar.month t) ∷ some (calendar.day t) ∷ []))
                time))

  -- A date whose fields are printed in plain digits, and which is the one that its own fields make
  -- (with its seconds at zero, and outside an hour that the clock repeats): the input's text for its UTC
  -- text is read back as that UTC text.
  pub utc_iso_string_round_trip :
      (t : T)
      → HasPlainFields t
      → calendar.make
          (calendar.year t)
          (calendar.month t)
          (calendar.day t)
          (calendar.hours t)
          (calendar.minutes t)
        ≡ some t
      → calendar.date (calendar.to_iso_string t) ≡ some t
      → given (some (calendar.to_iso_string t)) ≡ true
      → local_datetime_local_to_utc_iso_string calendar
          (utc_iso_string_to_local_datetime_local calendar (some (calendar.to_iso_string t)))
        ≡ returned (some (calendar.to_iso_string t))
  unfolding utc_iso_string_to_local_datetime_local
  utc_iso_string_round_trip t p makes reads iso =
      ap (local_datetime_local_to_utc_iso_string calendar) (
        ap (λ b. if b then text_of calendar (calendar.date (calendar.to_iso_string t)) else none)
          iso
        ∙ ap (text_of calendar) reads)
      ∙ from_local_text t p
      ∙ ap (iso_of calendar) makes
