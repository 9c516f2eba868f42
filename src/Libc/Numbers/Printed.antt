-- ===== src/Libc/Numbers/Printed.antt =====
-- strtoull and strtoll of libc/src/stdlib_strto.c on what itoaud and itoad of libc/src/string.c print.
use unstable_os.Base.{
  Bool, Bool-cases, List, [], ap, arith, false, inl, inr, leb, leb_false→lt, leb→le, length,
  length-append, le→ltb_false, ltb, ne→eqb_false, refl, some, suc, true, zero, ℕ, ◌%◌, ◌*◌, ◌++◌,
  ◌+◌, ◌-◌, ◌/◌, ◌<◌, ◌==◌, ◌^◌, ◌||◌, ◌∙◌, ◌∷◌, ◌≡◌, ◌≢◌, ◌≤◌,
}
use unstable_os.Libc.Numbers.{
  Width, digits_loop, finish, get_value, isalnum, isspace, limit, of_signed, of_unsigned, parse,
  strtoll, strtoull, unchanged, undefined,
}
use unstable_os.Libc.Strings.Digits.{
  convert, digit, itoad, itoaud, value, write_digits, write_digits-value,
}
use unstable_os.Libc.Strings.Swap.{length-reverse, reverse, swap_loop-reverse}
use mathlib.Core.List.{append_assoc}

-- Decimal digits.
abbrev AllDigits : List ℕ → Type 0
AllDigits [] = Unit
AllDigits (d ∷ ds) = (48 ≤ d) × (d ≤ 57) × AllDigits ds

write_digits-AllDigits : (fuel num : ℕ) → AllDigits (write_digits digit 10 fuel num)
unfolding write_digits
write_digits-AllDigits zero num = tt
write_digits-AllDigits (suc fuel) num = elim (Bool-cases (num / 10 == 0)) [
  | inl e ↦ rw e (omega arith, omega arith, tt)
  | inr e ↦ rw e (omega arith, omega arith, write_digits-AllDigits fuel (num / 10))
]

undefined-limit :
    (w : Width) (full : ℕ) → full < limit w → (undefined w full ≡ false) × (full < 2 ^ 64)
undefined-limit of_unsigned full h = (refl, h)
undefined-limit of_signed full h = (ground arith, omega arith)

-- The text of a number is its digits in order with the terminator.
convert-reverse :
    (num : ℕ) → convert digit 10 num ≡ reverse (write_digits digit 10 64 num) ++ (0 ∷ [])
unfolding convert
convert-reverse num =
    ap (λ l. l ++ (0 ∷ []))
      (swap_loop-reverse (write_digits digit 10 64 num) (unfold write_digits in λ e. cc))

module _ (w : Width) (neg : Bool) where
  -- One digit.
  digits_loop-digit :
      (acc d off : ℕ) (s : List ℕ)
      → 48 ≤ d
      → d ≤ 57
      → acc * 10 + (d - 48) < limit w
      → digits_loop w neg 10 acc unchanged (d ∷ s) off
        ≡ digits_loop w neg 10 ((d - 48) + 10 * acc) unchanged s (suc off)
  unfolding digits_loop
  digits_loop-digit acc d off s lo hi fits =
      let v : get_value d ≡ d - 48 = ground arith in
      let n : isalnum d ≡ true = ground arith in
      let u = undefined-limit w (acc * 10 + (d - 48)) fits in
      let sum : (acc * 10 + (d - 48)) % 2 ^ 64 ≡ (d - 48) + 10 * acc = omega (arith, u.1) in
      let go : ((d - 48) == 255 || leb 10 (d - 48)) ≡ false = ground arith in
      let up : ltb ((d - 48) + 10 * acc) acc ≡ false =
        le→ltb_false ((d - 48) + 10 * acc) acc (omega arith) in
      rw (v, n, sum, go, u.0, up) refl

  -- All digits, which the list has from the last on.
  digits_loop-reverse :
      (ds s : List ℕ) (off : ℕ)
      → AllDigits ds
      → value ds < limit w
      → digits_loop w neg 10 0 unchanged (reverse ds ++ s) off
        ≡ digits_loop w neg 10 (value ds) unchanged s (off + length ds)
  digits_loop-reverse [] s off a h = let z : off + 0 ≡ off = omega arith in rw z refl
  digits_loop-reverse (d ∷ ds) s off a h =
      let n : off + suc (length ds) ≡ suc (off + length ds) = omega arith in
      rw (append_assoc (reverse ds) (d ∷ []) s, n)
        (digits_loop-reverse ds (d ∷ s) off a.2 (omega arith)
          ∙ digits_loop-digit (value ds) d (off + length ds) s a.0 a.1 (omega arith))

  digits_loop-end :
      (acc off : ℕ) (t : List ℕ)
      → digits_loop w neg 10 acc unchanged (0 ∷ t) off ≡ some (finish neg acc unchanged off)
  unfolding digits_loop
  digits_loop-end acc off t = refl

  digits_loop-convert :
      (num off : ℕ) (t : List ℕ)
      → num < limit w
      → digits_loop w neg 10 0 unchanged (convert digit 10 num ++ t) off
        ≡ some (finish neg num unchanged (off + (length (convert digit 10 num) - 1)))
  digits_loop-convert num off t h =
      let ds = write_digits digit 10 64 num in
      let v = write_digits-value 64 num (undefined-limit w num h).1 in
      let text = convert-reverse num in
      let size : length (convert digit 10 num) - 1 ≡ length ds =
        rw text (omega (arith, length-append (reverse ds) (0 ∷ []), length-reverse ds)) in
      rw (size, text, append_assoc (reverse ds) (0 ∷ []) t)
        (digits_loop-reverse ds (0 ∷ t) off (write_digits-AllDigits 64 num) (rw v h)
          ∙ digits_loop-end (value ds) (off + length ds) t
          ∙ rw v refl)

convert_size : (num : ℕ) → 0 < length (convert digit 10 num)
convert_size num =
    rw (convert-reverse num)
      (omega (arith, length-append (reverse (write_digits digit 10 64 num)) (0 ∷ [])))

-- A text that starts with a digit is read from there in the base 10.
skip_spaces-digit :
    (w : Width) (c : ℕ) (s : List ℕ)
    → 48 ≤ c
    → c ≤ 57
    → parse w (c ∷ s) 10 ≡ digits_loop w false 10 0 unchanged (c ∷ s) 0
skip_spaces-digit w c s lo hi =
    let sp : isspace c ≡ false = ground arith in
    let z = ne→eqb_false c 0 (omega arith) in
    let m = ne→eqb_false c 45 (omega arith) in
    let p = ne→eqb_false c 43 (omega arith) in rw (z, sp, m, p) refl

reverse-AllDigits :
    (ds : List ℕ)
    → AllDigits ds
    → ds ≢ []
    → (c : ℕ) × (s : List ℕ) × (reverse ds ≡ c ∷ s) × (48 ≤ c) × (c ≤ 57)
reverse-AllDigits [] a h = absurd (h refl)
reverse-AllDigits (d ∷ []) a h = (d, [], refl, a.0, a.1)
reverse-AllDigits (d ∷ (e ∷ ds)) a h =
    let r = reverse-AllDigits (e ∷ ds) a.2 (λ q. cc) in
    (r.0, r.1 ++ (d ∷ []), ap (λ l. l ++ (d ∷ [])) r.2, r.3, r.4)

parse-convert :
    (w : Width) (num : ℕ) (t : List ℕ)
    → num < limit w
    → parse w (convert digit 10 num ++ t) 10
      ≡ some
          (record { value = num; end_out = length (convert digit 10 num) - 1; errno = unchanged })
parse-convert w num t h =
    let ds = write_digits digit 10 64 num in
    let r = reverse-AllDigits ds (write_digits-AllDigits 64 num) (unfold write_digits in λ e. cc) in
    let z : 0 + (length (convert digit 10 num) - 1) ≡ length (convert digit 10 num) - 1 =
      omega arith in
    let first : convert digit 10 num ≡ r.0 ∷ (r.1 ++ (0 ∷ [])) =
      rw (convert-reverse num, r.2) refl in
    let start : parse w (convert digit 10 num ++ t) 10
        ≡ digits_loop w false 10 0 unchanged (convert digit 10 num ++ t) 0 =
      rw first (skip_spaces-digit w r.0 ((r.1 ++ (0 ∷ [])) ++ t) r.3 r.4) in
    start ∙ digits_loop-convert w false num 0 t h ∙ rw z refl

-- strtoull reads the text that itoaud prints for a word of 64 bits, with any bytes behind it, as that
-- number, up to its terminator, and leaves `errno` as it is.
pub strtoull-itoaud :
    (num : ℕ) (t : List ℕ)
    → num < 2 ^ 64
    → strtoull (itoaud num ++ t) 10
      ≡ some (record { value = num; end_out = length (itoaud num) - 1; errno = unchanged })
unfolding strtoull itoaud
strtoull-itoaud num t h = parse-convert of_unsigned num t h

-- strtoll reads the text that itoad prints for a signed word of 64 bits as that number, except for the
-- least one.
pub strtoll-itoad :
    (num : ℕ) (t : List ℕ)
    → num < 2 ^ 64
    → num ≢ 2 ^ 63
    → strtoll (itoad num ++ t) 10
      ≡ some (record { value = num; end_out = length (itoad num) - 1; errno = unchanged })
unfolding strtoll itoad
strtoll-itoad num t h ne = elim (Bool-cases (leb (2 ^ 63) num)) [
  | inl e ↦
      let big = leb→le (2 ^ 63) num e in
      let back : (2 ^ 64 - (2 ^ 64 - num) % 2 ^ 64) % 2 ^ 64 ≡ num = omega arith in
      let size : 1 + (length (convert digit 10 ((2 ^ 64 - num) % 2 ^ 64)) - 1)
          ≡ suc (length (convert digit 10 ((2 ^ 64 - num) % 2 ^ 64))) - 1 =
        omega (arith, convert_size ((2 ^ 64 - num) % 2 ^ 64)) in
      rw e (
        digits_loop-convert of_signed true ((2 ^ 64 - num) % 2 ^ 64) 1 t (omega arith)
        ∙ rw (back, size) refl)
  | inr e ↦ rw e (parse-convert of_signed num t (leb_false→lt (2 ^ 63) num e))
]
