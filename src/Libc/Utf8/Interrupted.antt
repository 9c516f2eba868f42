-- ===== src/Libc/Utf8/Interrupted.antt =====
-- `mbsnrtowcs` of libc/src/wchar/convs.c where a limit falls in the middle of a character.
use unstable_os.Base.{
  Bool-cases, List, Option, [], arith, false, inl, inr, le→ltb_false, ltb, ltb→lt, lt→ltb, min,
  ne→eqb_false, none, not, refl, some, suc, true, zero, ℕ, ◌!=◌, ◌%◌, ◌&&◌, ◌*◌, ◌++◌, ◌+◌, ◌-◌,
  ◌/◌, ◌<◌, ◌==◌, ◌^◌, ◌||◌, ◌∷◌, ◌≡◌, ◌≤◌,
}
use mathlib.Core.Path.{subst}
use unstable_os.Libc.Utf8.{decode_first, decode_loop, digits_of, ilseq, incomplete, lead, mbrtowc}
use unstable_os.Libc.Utf8.Encode.{all_below, all_below-at, utf8}
use unstable_os.Libc.Utf8.Text.{Conversion, mbs_loop, mbsnrtowcs}

lead_table :
    all_below 56
      (λ x. ltb 1 (lead (192 + x)) && not (ltb 4 (lead (192 + x)) || lead (192 + x) == 1))
    ≡ true
unfolding all_below digits_of
lead_table = refl

lead_range : (b : ℕ) → 192 ≤ b → b < 248 → (1 < lead b) × (lead b ≤ 4)
lead_range b lo hi =
    let e : 192 + (b - 192) ≡ b = omega arith in
    let k =
      all_below-at 56
        (λ x. ltb 1 (lead (192 + x)) && not (ltb 4 (lead (192 + x)) || lead (192 + x) == 1))
        (b - 192) lead_table (omega arith) in
    subst (λ x. (1 < lead x) × (lead x ≤ 4)) e (ground (arith, k))

abbrev pub stopped : Option ℕ → ℕ → Conversion
stopped r q = record { result = r; src = some 0; stored = []; state = q }

-- What a first byte of a longer character does to two calls.
module _ (b : ℕ) (s : List ℕ) (len : ℕ) (lo : 192 ≤ b) (hi : b < 248) (room : 0 < len) where
  first_read : (q : ℕ) × (mbrtowc 0 (b ∷ s) 1 ≡ some (incomplete, q)) × (2 ^ 30 ≤ q)
  unfolding mbrtowc decode_first decode_loop
  first_read =
      let w = lead b - 1 in
      let l = lead_range b lo hi in
      let p = b % 2 ^ (6 - w) + w * 2 ^ 30 in
      let bad : (ltb 4 (lead b) || lead b == 1) ≡ false = ground (arith, l.0, l.1) in
      (
        p % 2 ^ 30 + w % 4 * 2 ^ 30,
        rw (le→ltb_false b 128 (omega arith), ne→eqb_false b 255 (omega arith), bad) refl,
        omega (arith, l.0, l.1),
      )

  first_call :
      (q : ℕ)
      → mbrtowc 0 (b ∷ s) 1 ≡ some (incomplete, q)
      → mbsnrtowcs true (b ∷ s) 1 len 0 ≡ some (stopped (some 0) q)
  unfolding mbsnrtowcs mbs_loop
  first_call q e = rw (lt→ltb 0 len room, e) refl

  second_read : (q n : ℕ) → 2 ^ 30 ≤ q → mbrtowc q (b ∷ s) (suc n) ≡ some (ilseq, 0)
  unfolding mbrtowc decode_loop
  second_read zero n h = absurd (omega arith)
  second_read (suc q) n h =
      let high : (suc q / 2 ^ 30 != 0 && b / 64 != 2) ≡ true = ground arith in rw high refl

  second_call :
      (q nmc : ℕ) → 0 < nmc → 2 ^ 30 ≤ q → mbsnrtowcs true (b ∷ s) nmc len q ≡ some (stopped none 0)
  unfolding mbsnrtowcs mbs_loop
  second_call q zero pos h = absurd (omega arith)
  second_call q (suc n) pos h =
      let e : min (suc n - 0) 4 ≡ suc (min n 3) = omega arith in
      rw (lt→ltb 0 len room, lt→ltb 0 (suc n) pos, e, second_read q (min n 3) h) refl

  two_calls :
      (nmc : ℕ)
      → 0 < nmc
      → (q : ℕ) × (mbsnrtowcs true (b ∷ s) 1 len 0 ≡ some (stopped (some 0) q))
        × (mbsnrtowcs true (b ∷ s) nmc len q ≡ some (stopped none 0))
  two_calls nmc pos = let r = first_read in (r.0, first_call r.0 r.1, second_call r.0 nmc pos r.2)

-- When `nmc` ends behind the first byte of a longer character, `*src` stays in front of it, but the state
-- keeps the byte: the next call, from `*src` on, is an error, however many bytes it may read.
pub mbsnrtowcs_loses :
    (c : ℕ) (t : List ℕ) (nmc len : ℕ)
    → 0x80 ≤ c
    → c ≤ 0x10FFFF
    → 0 < len
    → 0 < nmc
    → (q : ℕ) × (mbsnrtowcs true (utf8 c ++ t) 1 len 0 ≡ some (stopped (some 0) q))
      × (mbsnrtowcs true (utf8 c ++ t) nmc len q ≡ some (stopped none 0))
mbsnrtowcs_loses c t nmc len lo hi room pos = elim (Bool-cases (ltb c 2048)) [
  | inl p ↦
      let h = ltb→lt c 2048 p in
      rw (le→ltb_false c 128 lo, p)
        (two_calls (192 + c / 64) _ len (omega arith) (omega arith) room nmc pos)
  | inr p ↦ elim (Bool-cases (ltb c 65536)) [
    | inl q ↦
        let h = ltb→lt c 65536 q in
        rw (le→ltb_false c 128 lo, p, q)
          (two_calls (224 + c / 64 / 64) _ len (omega arith) (omega arith) room nmc pos)
    | inr q ↦
        rw (le→ltb_false c 128 lo, p, q)
          (two_calls (240 + c / 64 / 64 / 64) _ len (omega arith) (omega arith) room nmc pos)
  ]
]
