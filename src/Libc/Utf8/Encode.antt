-- ===== src/Libc/Utf8/Encode.antt =====
-- `wcrtomb` of libc/src/wchar/convs.c against the table of UTF-8.
use unstable_os.Base.{
  Bool, Bool-cases, List, [], arith, drop, eqb_false→ne, eqb→eq, false, if◌then◌else◌, inl, inr,
  length, le→ltb_false, ltb, ltb_false→le, ltb→lt, lt→ltb, none, not, refl, some, suc, sym, true,
  zero, ℕ, ◌%◌, ◌&&◌, ◌++◌, ◌+◌, ◌-◌, ◌/◌, ◌<◌, ◌==◌, ◌^◌, ◌∙◌, ◌∷◌, ◌≡◌, ◌≤◌, ◌⊎◌,
}
use mathlib.Core.Path.{subst}
use unstable_os.Libc.Utf8.{clz, digits_of, wcrtomb}
use Prim.Native.Nat.{bit_or}

-- The bytes of a character.
abbrev pub utf8 : ℕ → List ℕ
utf8 c =
    if ltb c 0x80
    then c ∷ []
    else if ltb c 0x800
    then (192 + c / 64) ∷ ((c % 64 + 128) ∷ [])
    else if ltb c 0x10000
    then (224 + c / 64 / 64) ∷ ((c / 64 % 64 + 128) ∷ ((c % 64 + 128) ∷ []))
    else (240 + c / 64 / 64 / 64)
      ∷ ((c / 64 / 64 % 64 + 128) ∷ ((c / 64 % 64 + 128) ∷ ((c % 64 + 128) ∷ [])))

-- What holds of every number below a bound, by trying each.
unfoldable pub all_below : ℕ → (ℕ → Bool) → Bool
all_below zero p = true
all_below (suc n) p = p n && all_below n p

pub all_below-at : (n : ℕ) (p : ℕ → Bool) (x : ℕ) → all_below n p ≡ true → x < n → p x ≡ true
unfolding all_below
all_below-at zero p x h lt = absurd (omega arith)
all_below-at (suc n) p x h lt = elim (Bool-cases (x == n)) [
  | inl e ↦ subst (λ k. p k ≡ true) (sym (eqb→eq x n e)) (ground arith)
  | inr e ↦ all_below-at n p x (ground arith) (omega (arith, eqb_false→ne x n e))
]

agree : Bool → Bool → Bool
agree true b = b
agree false b = not b

agree-eq : (a b : Bool) → agree a b ≡ true → a ≡ b
unfolding agree
agree-eq true true h = refl
agree-eq true false h = sym h
agree-eq false true h = h
agree-eq false false h = refl

-- `__builtin_clz` of a byte below 128 tells how large it is.
clz_table :
    all_below 4
      (λ k. all_below 128 (λ c. agree (ltb (clz c - 24) (k + 2)) (ltb (2 ^ (6 - k) - 1) c)))
    ≡ true
unfolding all_below agree digits_of
clz_table = refl

clz_less : (k c : ℕ) → k < 4 → c < 128 → ltb (clz c - 24) (k + 2) ≡ ltb (2 ^ (6 - k) - 1) c
clz_less k c hk hc = agree-eq (ltb (clz c - 24) (k + 2)) (ltb (2 ^ (6 - k) - 1) c) (
    all_below-at 128 (λ x. agree (ltb (clz x - 24) (k + 2)) (ltb (2 ^ (6 - k) - 1) x)) c
      (all_below-at 4
        (λ j. all_below 128 (λ x. agree (ltb (clz x - 24) (j + 2)) (ltb (2 ^ (6 - j) - 1) x))) k
        clz_table hk)
      hc)

-- The marks of a first byte are apart from its other bits.
head_table :
    all_below 4
      (λ b. all_below (2 ^ (6 - b)) (λ c. bit_or (256 - 2 ^ (7 - b)) c == 256 - 2 ^ (7 - b) + c))
    ≡ true
unfolding all_below
head_table = refl

head_lem :
    (b c : ℕ) → b < 4 → c < 2 ^ (6 - b) → bit_or (256 - 2 ^ (7 - b)) c ≡ 256 - 2 ^ (7 - b) + c
head_lem b c hb hc = eqb→eq (bit_or (256 - 2 ^ (7 - b)) c) (256 - 2 ^ (7 - b) + c) (
    all_below-at (2 ^ (6 - b)) (λ x. bit_or (256 - 2 ^ (7 - b)) x == 256 - 2 ^ (7 - b) + x) c
      (all_below-at 4
        (λ k. all_below (2 ^ (6 - k)) (λ x. bit_or (256 - 2 ^ (7 - k)) x == 256 - 2 ^ (7 - k) + x))
        b head_table hb)
      hc)

pow_positive : (k : ℕ) → k < 4 → 0 < 2 ^ (6 - k)
pow_positive zero h = omega arith
pow_positive (suc zero) h = omega arith
pow_positive (suc (suc zero)) h = omega arith
pow_positive (suc (suc (suc zero))) h = omega arith
pow_positive (suc (suc (suc (suc k)))) h = absurd (omega arith)

pow_small : (k : ℕ) → k < 4 → 2 ^ (6 - k) ≤ 64
pow_small zero h = omega arith
pow_small (suc zero) h = omega arith
pow_small (suc (suc zero)) h = omega arith
pow_small (suc (suc (suc zero))) h = omega arith
pow_small (suc (suc (suc (suc k)))) h = absurd (omega arith)

clz_below : (k c : ℕ) → k < 4 → c < 2 ^ (6 - k) → ltb (clz c - 24) (k + 2) ≡ false
clz_below k c hk h =
    clz_less k c hk (omega (arith, pow_small k hk)) ∙ le→ltb_false (2 ^ (6 - k) - 1) c (omega arith)

clz_from : (k c : ℕ) → k < 4 → 2 ^ (6 - k) ≤ c → c < 128 → ltb (clz c - 24) (k + 2) ≡ true
clz_from k c hk lo h =
    clz_less k c hk h ∙ lt→ltb (2 ^ (6 - k) - 1) c (omega (arith, pow_positive k hk))

module _ (a b d e c : ℕ) (s : List ℕ) where
  dst : List ℕ
  dst = a ∷ (b ∷ (d ∷ (e ∷ s)))

  one_byte : c < 128 → wcrtomb dst c ≡ (some 1, c ∷ (b ∷ (d ∷ (e ∷ s))))
  unfolding wcrtomb dst
  one_byte hi = rw (le→ltb_false 0x10FFFF c (omega arith), lt→ltb c 128 hi) refl

  two_bytes :
      128 ≤ c
      → c < 2048
      → wcrtomb dst c ≡ (some 2, (192 + c / 64) ∷ ((c % 64 + 128) ∷ (d ∷ (e ∷ s))))
  unfolding wcrtomb dst
  two_bytes lo hi =
      rw
        (
          le→ltb_false 0x10FFFF c (omega arith),
          le→ltb_false c 128 lo,
          lt→ltb (c / 64) 128 (omega arith),
          clz_below 1 (c / 64) (omega arith) (omega arith),
          clz_below 0 (c / 64) (omega arith) (omega arith),
          head_lem 1 (c / 64) (omega arith) (omega arith),
        )
        refl

  three_bytes :
      2048 ≤ c
      → c < 65536
      → wcrtomb dst c
        ≡ (some 3, (224 + c / 64 / 64) ∷ ((c / 64 % 64 + 128) ∷ ((c % 64 + 128) ∷ (e ∷ s))))
  unfolding wcrtomb dst
  three_bytes lo hi = elim (Bool-cases (ltb c 8192)) [
    | inl q ↦
        let h = ltb→lt c 8192 q in
        rw
          (
            le→ltb_false 0x10FFFF c (omega arith),
            le→ltb_false c 128 (omega arith),
            lt→ltb (c / 64) 128 (omega arith),
            clz_from 1 (c / 64) (omega arith) (omega arith) (omega arith),
            clz_from 1 (c / 64) (omega arith) (omega arith) (omega arith),
            head_lem 2 (c / 64 / 64) (omega arith) (omega arith),
          )
          refl
    | inr q ↦
        let h = ltb_false→le c 8192 q in
        rw
          (
            le→ltb_false 0x10FFFF c (omega arith),
            le→ltb_false c 128 (omega arith),
            le→ltb_false (c / 64) 128 (omega arith),
            lt→ltb (c / 64 / 64) 128 (omega arith),
            clz_below 2 (c / 64 / 64) (omega arith) (omega arith),
            clz_below 1 (c / 64 / 64) (omega arith) (omega arith),
            head_lem 2 (c / 64 / 64) (omega arith) (omega arith),
          )
          refl
  ]

  four_bytes :
      65536 ≤ c
      → c ≤ 0x10FFFF
      → wcrtomb dst c ≡ (
        some 4,
        (240 + c / 64 / 64 / 64)
            ∷ ((c / 64 / 64 % 64 + 128) ∷ ((c / 64 % 64 + 128) ∷ ((c % 64 + 128) ∷ s))),
      )
  unfolding wcrtomb dst
  four_bytes lo hi = elim (Bool-cases (ltb c 524288)) [
    | inl q ↦
        let h = ltb→lt c 524288 q in
        rw
          (
            le→ltb_false 0x10FFFF c (omega arith),
            le→ltb_false c 128 (omega arith),
            le→ltb_false (c / 64) 128 (omega arith),
            lt→ltb (c / 64 / 64) 128 (omega arith),
            clz_from 2 (c / 64 / 64) (omega arith) (omega arith) (omega arith),
            clz_from 2 (c / 64 / 64) (omega arith) (omega arith) (omega arith),
            head_lem 3 (c / 64 / 64 / 64) (omega arith) (omega arith),
          )
          refl
    | inr q ↦
        let h = ltb_false→le c 524288 q in
        rw
          (
            le→ltb_false 0x10FFFF c (omega arith),
            le→ltb_false c 128 (omega arith),
            le→ltb_false (c / 64) 128 (omega arith),
            le→ltb_false (c / 64 / 64) 128 (omega arith),
            lt→ltb (c / 64 / 64 / 64) 128 (omega arith),
            clz_below 3 (c / 64 / 64 / 64) (omega arith) (omega arith),
            clz_below 2 (c / 64 / 64 / 64) (omega arith) (omega arith),
            head_lem 3 (c / 64 / 64 / 64) (omega arith) (omega arith),
          )
          refl
  ]

-- `wcrtomb` writes the bytes of a character up to 0x10FFFF to a place for four, leaves those behind
-- them as they are, and returns their number. Any other `wchar_t` is an error, and nothing is written.
pub wcrtomb_lem :
    (a b d e c : ℕ) (s : List ℕ)
    → ((c ≤ 0x10FFFF)
        × (wcrtomb (a ∷ (b ∷ (d ∷ (e ∷ s)))) c
            ≡ (some (length (utf8 c)), utf8 c ++ drop (length (utf8 c)) (a ∷ (b ∷ (d ∷ (e ∷ s)))))))
      ⊎ ((0x10FFFF < c) × (wcrtomb (a ∷ (b ∷ (d ∷ (e ∷ s)))) c ≡ (none, a ∷ (b ∷ (d ∷ (e ∷ s))))))
unfolding dst
wcrtomb_lem a b d e c s = elim (Bool-cases (ltb c 128)) [
  | inl p ↦ inl (omega (arith, ltb→lt c 128 p), rw p (one_byte a b d e c s (ltb→lt c 128 p)))
  | inr p ↦ elim (Bool-cases (ltb c 2048)) [
    | inl q ↦
        let h = ltb→lt c 2048 q in
        inl (omega arith, rw (p, q) (two_bytes a b d e c s (ltb_false→le c 128 p) h))
    | inr q ↦ elim (Bool-cases (ltb c 65536)) [
      | inl r ↦
          let h = ltb→lt c 65536 r in
          inl (omega arith, rw (p, q, r) (three_bytes a b d e c s (ltb_false→le c 2048 q) h))
      | inr r ↦ elim (Bool-cases (ltb 0x10FFFF c)) [
        | inl big ↦ inr (ltb→lt 0x10FFFF c big, unfold wcrtomb in rw big refl)
        | inr fits ↦
            let h = ltb_false→le 0x10FFFF c fits in
            inl (h, rw (p, q, r) (four_bytes a b d e c s (ltb_false→le c 65536 r) h))
      ]
    ]
  ]
]
