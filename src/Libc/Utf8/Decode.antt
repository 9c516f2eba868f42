-- ===== src/Libc/Utf8/Decode.antt =====
-- `mbrtowc` of libc/src/wchar/convs.c on the bytes of a character.
use unstable_os.Base.{
  Bool, Bool-cases, List, ap, arith, eqb→eq, false, inl, inr, length, le→ltb_false, ltb, ltb→lt,
  ne→eqb_false, refl, some, suc, true, ℕ, ◌!=◌, ◌%◌, ◌&&◌, ◌*◌, ◌++◌, ◌+◌, ◌-◌, ◌/◌, ◌<◌, ◌==◌, ◌^◌,
  ◌∙◌, ◌∷◌, ◌≡◌, ◌≤◌,
}
use unstable_os.Libc.Utf8.{char, decode_first, decode_loop, digits_of, lead, mbrtowc, wcrtomb}
use unstable_os.Libc.Utf8.Encode.{all_below, all_below-at, utf8, wcrtomb_lem}

-- What the first byte of a longer character says.
lead_table :
    all_below 32 (λ x. lead (192 + x) == 2)
      && (all_below 16 (λ x. lead (224 + x) == 3) && all_below 8 (λ x. lead (240 + x) == 4))
    ≡ true
unfolding all_below digits_of
lead_table = refl

and_true : (a b : Bool) → (a && b) ≡ true → (a ≡ true) × (b ≡ true)
and_true true b h = (refl, h)
and_true false b h = cc

lead_two : (x : ℕ) → x < 32 → lead (192 + x) ≡ 2
lead_two x h =
    eqb→eq (lead (192 + x)) 2
      (all_below-at 32 (λ y. lead (192 + y) == 2) x (and_true _ _ lead_table).0 h)

lead_three : (x : ℕ) → x < 16 → lead (224 + x) ≡ 3
lead_three x h =
    eqb→eq (lead (224 + x)) 3
      (all_below-at 16 (λ y. lead (224 + y) == 3) x (and_true _ _ (and_true _ _ lead_table).1).0 h)

lead_four : (x : ℕ) → x < 8 → lead (240 + x) ≡ 4
lead_four x h =
    eqb→eq (lead (240 + x)) 4
      (all_below-at 8 (λ y. lead (240 + y) == 4) x (and_true _ _ (and_true _ _ lead_table).1).1 h)

-- One continuation byte.
decode_more :
    (ps r i x n : ℕ) (s : List ℕ)
    → x < 64
    → r < 3
    → decode_loop ps (r + 2) i ((x + 128) ∷ s) (suc n)
      ≡ decode_loop (ps * 64 % 2 ^ 32 + x) (r + 1) (suc i) s n
unfolding decode_loop
decode_more ps r i x n s h k =
    let e1 : (x + 128) / 64 ≡ 2 = omega arith in
    let e2 : (x + 128) % 64 ≡ x = omega arith in
    let e4 : (r + 2 != 0) ≡ true = ground arith in
    let e3 : (r + 2 + (2 ^ 32 - 1)) % 2 ^ 32 ≡ r + 1 = omega arith in
    rw (e1, e2, e3, ne→eqb_false (r + 1) 0 (omega arith), e4) refl

decode_last :
    (ps i x n : ℕ) (s : List ℕ)
    → x < 64
    → decode_loop ps 1 i ((x + 128) ∷ s) (suc n) ≡ some (char (suc i) (ps * 64 % 2 ^ 32 + x), 0)
unfolding decode_loop
decode_last ps i x n s h =
    let e1 : (x + 128) / 64 ≡ 2 = omega arith in
    let e2 : (x + 128) % 64 ≡ x = omega arith in rw (e1, e2) refl

-- The first byte of a character of two, three and four bytes.
first_two :
    (x n : ℕ) (s : List ℕ)
    → x < 32
    → decode_first (192 + x) s (suc n) ≡ decode_loop (x + 2 ^ 30) 1 1 s n
unfolding decode_first
first_two x n s h =
    let d : suc n - 1 ≡ n = omega arith in
    let e : (192 + x) % 32 ≡ x = omega arith in
    rw
      (
        lead_two x h,
        le→ltb_false (192 + x) 128 (omega arith),
        ne→eqb_false (192 + x) 255 (omega arith),
        e,
        d,
      )
      refl

first_three :
    (x n : ℕ) (s : List ℕ)
    → x < 16
    → decode_first (224 + x) s (suc n) ≡ decode_loop (x + 2 * 2 ^ 30) 2 1 s n
unfolding decode_first
first_three x n s h =
    let d : suc n - 1 ≡ n = omega arith in
    let e : (224 + x) % 16 ≡ x = omega arith in
    rw
      (
        lead_three x h,
        le→ltb_false (224 + x) 128 (omega arith),
        ne→eqb_false (224 + x) 255 (omega arith),
        e,
        d,
      )
      refl

first_four :
    (x n : ℕ) (s : List ℕ)
    → x < 8
    → decode_first (240 + x) s (suc n) ≡ decode_loop (x + 3 * 2 ^ 30) 3 1 s n
unfolding decode_first
first_four x n s h =
    let d : suc n - 1 ≡ n = omega arith in
    let e : (240 + x) % 8 ≡ x = omega arith in
    rw
      (
        lead_four x h,
        le→ltb_false (240 + x) 128 (omega arith),
        ne→eqb_false (240 + x) 255 (omega arith),
        e,
        d,
      )
      refl

pub mbrtowc-utf8 :
    (c n : ℕ) (s : List ℕ)
    → c ≤ 0x10FFFF
    → mbrtowc 0 (utf8 c ++ s) (length (utf8 c) + n) ≡ some (char (length (utf8 c)) c, 0)
unfolding mbrtowc
mbrtowc-utf8 c n s fits = elim (Bool-cases (ltb c 128)) [
  | inl p ↦ rw p (unfold decode_first in rw p refl)
  | inr p ↦ elim (Bool-cases (ltb c 2048)) [
    | inl q ↦
        let h = ltb→lt c 2048 q in
        let m : 2 + n ≡ suc (suc n) = omega arith in
        let e : (c / 64 + 2 ^ 30) * 64 % 2 ^ 32 + c % 64 ≡ c = omega arith in
        rw (p, q, m)
          (first_two (c / 64) (suc n) _ (omega arith)
            ∙ decode_last (c / 64 + 2 ^ 30) 1 (c % 64) n s (omega arith)
            ∙ ap (λ k. some (char 2 k, 0)) e)
    | inr q ↦ elim (Bool-cases (ltb c 65536)) [
      | inl r ↦
          let h = ltb→lt c 65536 r in
          let m : 3 + n ≡ suc (suc (suc n)) = omega arith in
          let ps = c / 64 / 64 + 2 * 2 ^ 30 in
          let e : (ps * 64 % 2 ^ 32 + c / 64 % 64) * 64 % 2 ^ 32 + c % 64 ≡ c = omega arith in
          rw (p, q, r, m)
            (first_three (c / 64 / 64) (suc (suc n)) _ (omega arith)
              ∙ decode_more ps 0 1 (c / 64 % 64) (suc n) ((c % 64 + 128) ∷ s) (omega arith)
                  (omega arith)
              ∙ decode_last (ps * 64 % 2 ^ 32 + c / 64 % 64) 2 (c % 64) n s (omega arith)
              ∙ ap (λ k. some (char 3 k, 0)) e)
      | inr r ↦
          let m : 4 + n ≡ suc (suc (suc (suc n))) = omega arith in
          let p1 = c / 64 / 64 / 64 + 3 * 2 ^ 30 in
          let p2 = p1 * 64 % 2 ^ 32 + c / 64 / 64 % 64 in
          let p3 = p2 * 64 % 2 ^ 32 + c / 64 % 64 in
          let e : p3 * 64 % 2 ^ 32 + c % 64 ≡ c = omega arith in
          rw (p, q, r, m)
            (first_four (c / 64 / 64 / 64) (suc (suc (suc n))) _ (omega arith)
              ∙ decode_more p1 1 1 (c / 64 / 64 % 64) (suc (suc n))
                  ((c / 64 % 64 + 128) ∷ ((c % 64 + 128) ∷ s)) (omega arith) (omega arith)
              ∙ decode_more p2 0 2 (c / 64 % 64) (suc n) ((c % 64 + 128) ∷ s) (omega arith)
                  (omega arith)
              ∙ decode_last p3 3 (c % 64) n s (omega arith)
              ∙ ap (λ k. some (char 4 k, 0)) e)
    ]
  ]
]

-- Reading back what `wcrtomb` wrote, with any limit that leaves room for it, gives the character, the
-- number of its bytes, and the initial state.
pub mbrtowc-wcrtomb :
    (a b d e c : ℕ) (s : List ℕ)
    → c ≤ 0x10FFFF
    → (k : ℕ) × ((wcrtomb (a ∷ (b ∷ (d ∷ (e ∷ s)))) c).0 ≡ some k)
      × ((n : ℕ) → k ≤ n → mbrtowc 0 (wcrtomb (a ∷ (b ∷ (d ∷ (e ∷ s)))) c).1 n ≡ some (char k c, 0))
mbrtowc-wcrtomb a b d e c s fits = elim (wcrtomb_lem a b d e c s) [
  | inl p ↦
      let k = length (utf8 c) in
      (
        k,
        ap (λ r. r.0) p.1,
        λ n le.
            let split : n ≡ k + (n - k) = omega arith in
            rw (ap (λ r. r.1) p.1, split) (mbrtowc-utf8 c (n - k) _ fits),
      )
  | inr p ↦ absurd (omega (arith, p.0))
]
