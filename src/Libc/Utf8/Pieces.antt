-- ===== src/Libc/Utf8/Pieces.antt =====
-- `mbrtowc` of libc/src/wchar/convs.c on a sequence of bytes that comes in pieces.
use mathlib.Core.Option
use mathlib.Core.Path.{subst}
use unstable_os.Base.{
  Bool-cases, List, [], arith, inl, inr, length, ltb, ltb_false→le, ltb→lt, none, refl, some, suc,
  true, zero, ℕ, ◌!=◌, ◌%◌, ◌&&◌, ◌*◌, ◌++◌, ◌+◌, ◌-◌, ◌/◌, ◌<◌, ◌==◌, ◌^◌, ◌||◌, ◌∷◌, ◌≡◌, ◌≢◌,
  ◌≤◌, ◌⊎◌,
}
use unstable_os.Libc.Utf8.Encode.{all_below, all_below-at}
use unstable_os.Libc.Utf8.{
  Decoded, char, decode_first, decode_loop, digits_of, ilseq, incomplete, lead, mbrtowc,
}

-- The result of a call that goes on behind the first `i` bytes.
abbrev pub ahead : ℕ → Decoded × ℕ → Decoded × ℕ
ahead i (char k c, ps) = (char (i + k) c, ps)
ahead i (d, ps) = (d, ps)

-- Only the lower 30 bits of the state matter to the loop, and the index is counted on.
decode_loop-ahead :
    (p q r i j : ℕ) (t : List ℕ) (m : ℕ)
    → p % 2 ^ 30 ≡ q % 2 ^ 30
    → (decode_loop p r (i + j) t m ≡ Option.map (ahead i) (decode_loop q r j t m))
unfolding decode_loop
decode_loop-ahead p q r i j t zero h = rw h refl
decode_loop-ahead p q r i j [] (suc m) h = refl
decode_loop-ahead p q r i j (b ∷ t) (suc m) h =
    let e : p * 64 % 2 ^ 32 ≡ q * 64 % 2 ^ 32 = omega arith in
    let n : suc (i + j) ≡ i + suc j = omega arith in
    elim (Bool-cases (r != 0 && b / 64 != 2)) [
      | inl bad ↦ rw bad refl
      | inr good ↦ elim (Bool-cases ((r + (2 ^ 32 - 1)) % 2 ^ 32 == 0)) [
        | inl last ↦ rw (good, last, e, n) refl
        | inr more ↦
            rw (good, more, e, n)
              (decode_loop-ahead (q * 64 % 2 ^ 32 + b % 64) (q * 64 % 2 ^ 32 + b % 64)
                ((r + (2 ^ 32 - 1)) % 2 ^ 32) i (suc j) t m refl)
      ]
    ]

-- A loop that has run out of bytes leaves a state from which the next call goes on.
decode_loop-append :
    (p q r i : ℕ) (s t : List ℕ) (m : ℕ)
    → 0 < r
    → r < 4
    → decode_loop p r i (s ++ t) (length s) ≡ some (incomplete, q)
    → (q / 2 ^ 30 ≢ 0)
      × (decode_loop p r i (s ++ t) (length s + m)
          ≡ Option.map (ahead (i + length s)) (decode_loop q (q / 2 ^ 30) 0 t m))
unfolding decode_loop
decode_loop-append p q r i [] t m lo hi h =
    let e : p % 2 ^ 30 + r % 4 * 2 ^ 30 ≡ q = cc in
    let e1 : q / 2 ^ 30 ≡ r = omega arith in
    let a : 0 + m ≡ m = omega arith in
    let d : i + 0 ≡ i = omega arith in
    (
      omega arith,
      rw (a, d, e1)
          (subst (λ k. decode_loop p r k t m ≡ Option.map (ahead i) (decode_loop q r 0 t m)) d
            (decode_loop-ahead p q r i 0 t m (omega arith))),
    )
decode_loop-append p q r i (b ∷ s) t m lo hi h =
    let r' : ((r + (2 ^ 32 - 1)) % 2 ^ 32) ≡ r - 1 = omega arith in
    let a : suc (length s) + m ≡ suc (length s + m) = omega arith in
    let d : i + suc (length s) ≡ suc i + length s = omega arith in
    elim (Bool-cases (r != 0 && b / 64 != 2)) [
      | inl bad ↦ let k : some (ilseq, 0) ≡ some (incomplete, q) = rw bad at h in absurd (cc k)
      | inr good ↦ elim (Bool-cases ((r - 1) == 0)) [
        | inl last ↦
            let k : some (char (suc i) (p * 64 % 2 ^ 32 + b % 64), 0) ≡ some (incomplete, q) =
              rw (good, r', last) at h in
            absurd (cc k)
        | inr more ↦
            rw (a, d, good, r', more)
              (decode_loop-append (p * 64 % 2 ^ 32 + b % 64) q (r - 1) (suc i) s t m (ground arith)
                (omega arith) (rw (good, r', more) at h))
      ]
    ]

lead_table : all_below 128 (λ x. ltb 0 (lead (128 + x))) ≡ true
unfolding all_below digits_of
lead_table = refl

lead_positive : (b : ℕ) → 128 ≤ b → b < 256 → 0 < lead b
lead_positive b lo hi =
    let e : 128 + (b - 128) ≡ b = omega arith in
    subst (λ k. 0 < lead k) e
      (ltb→lt 0 (lead (128 + (b - 128)))
        (all_below-at 128 (λ x. ltb 0 (lead (128 + x))) (b - 128) lead_table (omega arith)))

-- The first byte only looks at the limit through the loop.
decode_first-append :
    (b q : ℕ) (s t : List ℕ) (m : ℕ)
    → b < 256
    → decode_first b (s ++ t) (suc (length s)) ≡ some (incomplete, q)
    → (q / 2 ^ 30 ≢ 0)
      × (decode_first b (s ++ t) (suc (length s + m))
          ≡ Option.map (ahead (suc (length s))) (decode_loop q (q / 2 ^ 30) 0 t m))
unfolding decode_first
decode_first-append b q s t m byte h = elim (Bool-cases (ltb b 128)) [
  | inl ascii ↦ let k : some (char 1 b, 0) ≡ some (incomplete, q) = rw ascii at h in absurd (cc k)
  | inr long ↦ elim (Bool-cases (b == 255)) [
    | inl ff ↦ let k : none ≡ some (incomplete, q) = rw (long, ff) at h in absurd (cc k)
    | inr no_ff ↦ elim (Bool-cases (ltb 4 (lead b) || lead b == 1)) [
      | inl bad ↦
          let k : some (ilseq, 0) ≡ some (incomplete, q) = rw (long, no_ff, bad) at h in
          absurd (cc k)
      | inr good ↦
          let d : suc (length s) - 1 ≡ length s = omega arith in
          let d3 : suc (length s) ≡ 1 + length s = omega arith in
          let d' : suc (length s + m) - 1 ≡ length s + m = omega arith in
          rw (long, no_ff, good, d', d3)
            (decode_loop-append (b % 2 ^ (6 - (lead b - 1)) + (lead b - 1) * 2 ^ 30) q (lead b - 1)
              1 s t m (ground (arith, lead_positive b (ltb_false→le b 128 long) byte))
              (ground arith) (rw (long, no_ff, good, d) at h))
    ]
  ]
]

-- The initial state, and those in the middle of a character.
abbrev pub IsState : ℕ → Type 0
IsState ps = (ps ≡ 0) ⊎ ((2 ^ 30 ≤ ps) × (ps < 2 ^ 32))

-- When the bytes of a first piece, of at least one, end in the middle of a character, the next call goes
-- on behind it as one call on both pieces would.
pub mbrtowc_pieces :
    (ps q b : ℕ) (s t : List ℕ) (m : ℕ)
    → IsState ps
    → b < 256
    → mbrtowc ps (b ∷ (s ++ t)) (suc (length s)) ≡ some (incomplete, q)
    → mbrtowc ps (b ∷ (s ++ t)) (suc (length s + m))
      ≡ Option.map (ahead (suc (length s))) (mbrtowc q t m)
unfolding mbrtowc
mbrtowc_pieces zero zero b s t m v byte h = absurd ((decode_first-append b 0 s t m byte h).0 refl)
mbrtowc_pieces zero (suc q) b s t m v byte h = (decode_first-append b (suc q) s t m byte h).1
mbrtowc_pieces (suc p) q b s t m (inl e) byte h = absurd (omega arith)
mbrtowc_pieces (suc p) zero b s t m (inr v) byte h = absurd (
    (decode_loop-append (suc p) 0 (suc p / 2 ^ 30) 0 (b ∷ s) t m (omega arith) (omega arith) h).0
      refl)
mbrtowc_pieces (suc p) (suc q) b s t m (inr v) byte h =
    let a : suc (length s) + m ≡ suc (length s + m) = omega arith in
    let z : 0 + suc (length s) ≡ suc (length s) = omega arith in
    let r =
      decode_loop-append (suc p) (suc q) (suc p / 2 ^ 30) 0 (b ∷ s) t m (omega arith) (omega arith)
        h in
    rw (a, z) at r.1
