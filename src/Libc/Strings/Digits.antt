-- ===== src/Libc/Strings/Digits.antt =====
-- The conversions of numbers to text of libc/src/string.c: itoad, itoaud, itoax and itoao. The result
-- is what is written to `out`.
use unstable_os.Base.{
  Bool-cases, List, [], arith, get_or, if◌then◌else◌, inl, inr, leb, length, refl, set, suc, zero,
  ℕ, ◌%◌, ◌*◌, ◌++◌, ◌+◌, ◌-◌, ◌/◌, ◌<◌, ◌==◌, ◌^◌, ◌∷◌, ◌≡◌,
}

pub get_nibble : ℕ → ℕ
get_nibble value = if leb 10 value then 65 + value - 10 else 48 + value

abbrev pub digit : ℕ → ℕ
digit value = 48 + value

-- The first loop, the last digit first. A word of 64 bits has at most 64 digits, the fuel.
unfoldable pub write_digits : (ℕ → ℕ) → ℕ → ℕ → ℕ → List ℕ
write_digits char base zero num = []
write_digits char base (suc fuel) num =
    let rest = write_digits char base fuel (num / base) in
    char (num % base) ∷ (if num / base == 0 then [] else rest)

-- The second loop, which swaps the digits at `i` and `ctr - i`, for `left` values of `i`.
unfoldable pub swap_loop : ℕ → ℕ → ℕ → List ℕ → List ℕ
swap_loop zero ctr i out = out
swap_loop (suc left) ctr i out =
    swap_loop left ctr (i + 1) (set (set out i (get_or out (ctr - i) 0)) (ctr - i) (get_or out i 0))

-- Both loops and the terminator.
unfoldable pub convert : (ℕ → ℕ) → ℕ → ℕ → List ℕ
unfolding write_digits swap_loop
convert char base num =
    let out = write_digits char base 64 num in
    let ctr = length out - 1 in swap_loop (ctr / 2 + 1) ctr 0 out ++ (0 ∷ [])

-- A set top bit is a sign, and the word is negated.
unfoldable pub itoad : ℕ → List ℕ
unfolding convert
itoad num =
    if leb (2 ^ 63) num
    then 45 ∷ convert digit 10 ((2 ^ 64 - num) % 2 ^ 64)
    else convert digit 10 num

unfoldable pub itoaud : ℕ → List ℕ
unfolding convert
itoaud num = convert digit 10 num

pub itoax : ℕ → List ℕ
unfolding convert get_nibble
itoax num = convert get_nibble 16 num

-- `num` has 32 bits.
pub itoao : ℕ → List ℕ
unfolding convert
itoao num = convert digit 8 num

prints_decimal : itoad 1203 ≡ 49 ∷ (50 ∷ (48 ∷ (51 ∷ (0 ∷ []))))
unfolding itoad
prints_decimal = refl

prints_minus : itoad (2 ^ 64 - 70) ≡ 45 ∷ (55 ∷ (48 ∷ (0 ∷ [])))
unfolding itoad
prints_minus = refl

prints_hexadecimal : itoax 0xBEEF ≡ 66 ∷ (69 ∷ (69 ∷ (70 ∷ (0 ∷ []))))
unfolding itoax
prints_hexadecimal = refl

prints_octal : itoao 8 ≡ 49 ∷ (48 ∷ (0 ∷ []))
unfolding itoao
prints_octal = refl

-- The number that decimal digits stand for, the last digit first.
abbrev pub value : List ℕ → ℕ
value [] = 0
value (d ∷ ds) = (d - 48) + 10 * value ds

-- The decimal digits that the first loop writes stand for the number, the last digit first, if it has
-- no more bits than the fuel.
pub write_digits-value :
    (fuel num : ℕ) → num < 2 ^ fuel → value (write_digits digit 10 fuel num) ≡ num
unfolding write_digits
write_digits-value zero num k = omega arith
write_digits-value (suc fuel) num k = elim (Bool-cases (num / 10 == 0)) [
  | inl e ↦ let small : num / 10 ≡ 0 = ground arith in rw e (omega arith)
  | inr e ↦
      let small : num / 10 < 2 ^ fuel = omega arith in
      let rest = write_digits-value fuel (num / 10) small in rw (e, rest) (omega arith)
]
