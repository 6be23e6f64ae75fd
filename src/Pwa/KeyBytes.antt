-- ===== src/Pwa/KeyBytes.antt =====
-- `urlBase64ToUint8Array` of web-rally/src/lib/pushSubscription.ts. Strings are lists of code units:
-- 61 is "=", 45 "-", 43 "+", 95 "_" and 47 "/". `atob` is a parameter; its strings hold code units,
-- one for each code point.
use platform_rally_extension.Base.{
  ℕ, zero, suc, ◌+◌, ◌-◌, ◌%◌, ◌≤◌, ◌≡◌, refl, sym, ◌∙◌, ap, ltb, true, false, if◌then◌else◌, ◌==◌,
  Same-nat, Option, none, some, get_or, List, [], ◌∷◌, ◌++◌, map, length, length-append, arith,
}
use Prim.Native.Nat.{◌^◌}
use mathlib.Core.List.{append_assoc, append-nil}
use platform_rally_extension.Base.Positions.{item_at}

abbrev pub repeat : ℕ → ℕ → List ℕ
repeat c zero = []
repeat c (suc n) = c ∷ repeat c n

-- The length of the padding; the subtraction never goes below 0.
abbrev pub padding_length : ℕ → ℕ
padding_length n = (4 - n % 4) % 4

abbrev pub replaced : ℕ → ℕ
replaced c = if c == 45 then 43 else if c == 95 then 47 else c

unfoldable pub to_base64 : List ℕ → List ℕ
to_base64 url = map replaced (url ++ repeat 61 (padding_length (length url)))

abbrev pub byte : ℕ → ℕ
byte v = v % 2 ^ 8

-- `bytes[i] = v`, which keeps the last eight bits and does nothing out of range.
abbrev pub set_byte : ℕ → ℕ → List ℕ → List ℕ
set_byte i v [] = []
set_byte zero v (b ∷ bytes) = byte v ∷ bytes
set_byte (suc i) v (b ∷ bytes) = b ∷ set_byte i v bytes

-- The loop, for at most `fuel` rounds.
unfoldable pub fill : List ℕ → ℕ → ℕ → List ℕ → Option (List ℕ)
fill raw zero i bytes = if ltb i (length raw) then none else some bytes
fill raw (suc fuel) i bytes =
    let rest = fill raw fuel (i + 1) (set_byte i (get_or (item_at i raw) 0) bytes) in
    if ltb i (length raw) then rest else some bytes

unfoldable pub url_base64_to_uint8_array : (List ℕ → List ℕ) → ℕ → List ℕ → Option (List ℕ)
url_base64_to_uint8_array atob fuel url =
    let raw = atob (to_base64 url) in fill raw fuel 0 (repeat 0 (length raw))

item_at-middle : (xs : List ℕ) (y : ℕ) (ys : List ℕ) → item_at (length xs) (xs ++ y ∷ ys) ≡ some y
item_at-middle [] y ys = refl
item_at-middle (x ∷ xs) y ys = item_at-middle xs y ys

set_byte-middle :
    (i v b : ℕ) (xs ys : List ℕ) → i ≡ length xs → set_byte i v (xs ++ b ∷ ys) ≡ xs ++ byte v ∷ ys
set_byte-middle zero v b [] ys e = refl
set_byte-middle (suc i) v b [] ys e = ground arith
set_byte-middle zero v b (x ∷ xs) ys e = ground arith
set_byte-middle (suc i) v b (x ∷ xs) ys e =
    ap (λ l. x ∷ l) (set_byte-middle i v b xs ys (omega (arith, e)))

fill-end :
    (raw : List ℕ) (fuel i : ℕ) (bytes : List ℕ)
    → ltb i (length raw) ≡ false
    → fill raw fuel i bytes ≡ some bytes
unfolding fill
fill-end raw zero i bytes h = rw h refl
fill-end raw (suc fuel) i bytes h = rw h refl

-- From the round at which `xs` is done, as `done`, and `ys` is left.
fill-rest :
    (raw xs ys done : List ℕ) (fuel i : ℕ) (bytes : List ℕ)
    → raw ≡ xs ++ ys
    → i ≡ length xs
    → length done ≡ length xs
    → bytes ≡ done ++ repeat 0 (length ys)
    → length ys ≤ fuel
    → fill raw fuel i bytes ≡ some (done ++ map byte ys)
unfolding fill
fill-rest raw xs [] done fuel i bytes r e d b enough =
    let n : length raw ≡ length xs = ap length (r ∙ append-nil xs) in
    fill-end raw fuel i bytes (ground arith) ∙ ap some b
fill-rest raw xs (y ∷ ys) done zero i bytes r e d b enough = absurd (omega arith)
fill-rest raw xs (y ∷ ys) done (suc fuel) i bytes r e d b enough =
    let n : length raw ≡ length xs + suc (length ys) = ap length r ∙ length-append xs (y ∷ ys) in
    let more : ltb i (length raw) ≡ true = ground arith in
    let here : item_at i raw ≡ some y =
      ap (λ j. item_at j raw) e ∙ ap (item_at (length xs)) r ∙ item_at-middle xs y ys in
    rw (more, here)
      (fill-rest raw (xs ++ y ∷ []) ys (done ++ byte y ∷ []) fuel (i + 1) (set_byte i y bytes)
          (r ∙ sym (append_assoc xs (y ∷ []) ys)) (omega (arith, e, length-append xs (y ∷ [])))
          (length-append done (byte y ∷ []) ∙ (omega (arith, d)) ∙ sym (length-append xs (y ∷ [])))
          (ap (set_byte i y) b
            ∙ set_byte-middle i y 0 done (repeat 0 (length ys)) (e ∙ sym d)
            ∙ sym (append_assoc done (byte y ∷ []) (repeat 0 (length ys))))
          (omega arith)
        ∙ ap some (append_assoc done (byte y ∷ []) (map byte ys)))

repeat-length : (c n : ℕ) → length (repeat c n) ≡ n
repeat-length c zero = refl
repeat-length c (suc n) = ap suc (repeat-length c n)

map-length : (f : ℕ → ℕ) (xs : List ℕ) → length (map f xs) ≡ length xs
map-length f [] = refl
map-length f (x ∷ xs) = ap suc (map-length f xs)

-- The loop ends: with as many rounds as the decoded string has units it returns those units, one
-- byte for each; and `atob` was given a string whose length is a multiple of four.
pub url_base64_to_uint8_array-ends :
    (atob : List ℕ → List ℕ) (fuel : ℕ) (url : List ℕ)
    → length (atob (to_base64 url)) ≤ fuel
    → (url_base64_to_uint8_array atob fuel url ≡ some (map byte (atob (to_base64 url))))
      × (length (to_base64 url) % 4 ≡ 0)
unfolding url_base64_to_uint8_array to_base64
url_base64_to_uint8_array-ends atob fuel url enough =
    let raw = atob (to_base64 url) in
    let n : length (to_base64 url) ≡ length url + padding_length (length url) =
      map-length replaced _
      ∙ length-append url (repeat 61 (padding_length (length url)))
      ∙ ap (λ m. length url + m) (repeat-length 61 (padding_length (length url))) in
    (
      fill-rest raw [] raw [] fuel 0 (repeat 0 (length raw)) refl refl refl refl enough,
      omega (arith, n),
    )
