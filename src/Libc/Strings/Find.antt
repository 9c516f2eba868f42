-- ===== src/Libc/Strings/Find.antt =====
-- strchr, strrchr and memmem of libc/src/string.c.
use mathlib.Core.Path.{subst}
use unstable_os.Base.{
  Bool, Bool-cases, List, Option, [], ap, arith, drop, eqb_false→ne, eqb→eq, false, get_elem?,
  if◌then◌else◌, inl, inr, length, le→ltb_false, ne→eqb_false, none, refl, some, suc, true, zero, ℕ,
  ◌!=◌, ◌+◌, ◌-◌, ◌<◌, ◌==◌, ◌||◌, ◌↔◌, ◌∷◌, ◌≡◌, ◌≢◌, ◌≤◌, ◌⊎◌,
}
use unstable_os.Libc.Strings.{memmem, memmem_loop, starts_with, strchr, strchrnul, to_int}
use unstable_os.Libc.Strings.Compare.{Spells, ends, next}

-- The offset of the first byte `c` of a list.
abbrev pub first_of : ℕ → List ℕ → Option ℕ
first_of c [] = none
first_of c (a ∷ x) =
    let rest = first_of c x in
    if a == c then some 0 else elim rest [ none ↦ none | some k ↦ some (suc k) ]

-- Where `strchrnul` stops: the byte, or the terminator.
strchrnul-Spells :
    (s x : List ℕ) (c : ℕ)
    → Spells s x
    → c < 128
    → c ≢ 0
    → ((k : ℕ) × (strchrnul s c ≡ some k) × (get_elem? s k ≡ some c) × (first_of c x ≡ some k))
      ⊎ ((k : ℕ) × (strchrnul s c ≡ some k) × (get_elem? s k ≡ some 0) × (first_of c x ≡ none))
unfolding strchrnul
strchrnul-Spells _ _ c ends h nz = inr (0, refl, refl, refl)
strchrnul-Spells _ _ c (next {a = a} {s = s} {x = x} ne d) h nz = elim (Bool-cases (a == c)) [
  | inl e ↦
      let q = eqb→eq a c e in
      let at : (a == 0 || to_int a == c) ≡ true = ground arith in
      inl (0, rw at refl, ap some q, rw e refl)
  | inr e ↦
      let at : (a == 0 || to_int a == c) ≡ false = ground arith in
      elim (strchrnul-Spells s x c d h nz) [
        | inl (k, p, g, f) ↦ inl (suc k, rw (at, p) refl, g, rw (e, f) refl)
        | inr (k, p, g, f) ↦ inr (suc k, rw (at, p) refl, g, rw (e, f) refl)
      ]
]

-- On a terminated string `strchr` reads no further than the terminator, and for a character of ASCII
-- but the terminator it returns the first place where the string has it, or NULL if there is none.
pub strchr_lem :
    (s x : List ℕ) (c : ℕ) → Spells s x → c < 128 → c ≢ 0 → strchr s c ≡ some (first_of c x)
unfolding strchr
strchr_lem s x c d h nz = elim (strchrnul-Spells s x c d h nz) [
  | inl (k, p, g, f) ↦ rw (p, g, f, ne→eqb_false c 0 nz) refl
  | inr (k, p, g, f) ↦ let at : (c != 0) ≡ true = ground arith in rw (p, g, f, at) refl
]

-- The needle is at the start of the list.
pub data Starts : List ℕ → List ℕ → Type 0 where
  empty : {s : List ℕ} → Starts s []
  more_of : {a : ℕ} {s n : List ℕ} → Starts s n → Starts (a ∷ s) (a ∷ n)

starts_with-Starts :
    (s n : List ℕ)
    → length n ≤ length s
    → (b : Bool) × (starts_with s n ≡ some b) × ((b ≡ true) ↔ Starts s n)
unfolding starts_with
starts_with-Starts s [] h = (true, refl, (λ e. empty, λ e. refl))
starts_with-Starts [] (b ∷ n) h = absurd (omega arith)
starts_with-Starts (a ∷ s) (b ∷ n) h = elim (Bool-cases (a == b)) [
  | inl e ↦
      let r = starts_with-Starts s n (omega arith) in
      (
        r.0,
        rw e r.1,
        (
          λ k. subst (λ c. Starts (a ∷ s) (c ∷ n)) (eqb→eq a b e) (more_of (r.2.0 k)),
          λ k. r.2.1 (tail_of s n k),
        ),
      )
  | inr e ↦ (
    false,
    rw e refl,
    (λ k. absurd (ground arith), λ k. absurd (eqb_false→ne a b e (head_of s n k))),
  )
]
  where
    tail_of : {a b : ℕ} (s n : List ℕ) → Starts (a ∷ s) (b ∷ n) → Starts s n
    tail_of _ _ (more_of k) = k

    head_of : {a b : ℕ} (s n : List ℕ) → Starts (a ∷ s) (b ∷ n) → a ≡ b
    head_of _ _ (more_of k) = refl

-- What a search of the first `left` offsets returns: the first that has the needle, or NULL where
-- none of them has.
abbrev pub Found : List ℕ → List ℕ → ℕ → Option (Option ℕ) → Type 0
Found s n left o =
    ((k : ℕ) × (o ≡ some (some k))
      × (k < left)
      × Starts (drop k s) n
      × ((j : ℕ) → j < k → Starts (drop j s) n → ⊥))
    ⊎ ((o ≡ some none) × ((j : ℕ) → j < left → Starts (drop j s) n → ⊥))

not_before :
    (a : ℕ) (s n : List ℕ) (m : ℕ)
    → (Starts (a ∷ s) n → ⊥)
    → ((j : ℕ) → j < m → Starts (drop j s) n → ⊥)
    → (j : ℕ) → j < suc m
    → Starts (drop j (a ∷ s)) n
    → ⊥
not_before a s n m z f zero l = z
not_before a s n m z f (suc j) l = f j (omega arith)

unless_true : {A : Type 0} (b : Bool) → (A → b ≡ true) → b ≡ false → A → ⊥
unless_true b f e k = let t = f k in ground arith

memmem_loop-Found :
    (s n : List ℕ) (left : ℕ) → left + length n ≤ length s → Found s n left (memmem_loop s n left)
unfolding memmem_loop
memmem_loop-Found s n zero h = inr (refl, λ j l k. absurd (omega arith))
memmem_loop-Found [] n (suc left) h = absurd (omega arith)
memmem_loop-Found (a ∷ s) n (suc left) h =
    let r = starts_with-Starts (a ∷ s) n (omega arith) in
    elim (Bool-cases r.0) [
      | inl e ↦ inl (0, rw (r.1, e) refl, omega arith, r.2.0 e, λ j l. absurd (omega arith))
      | inr e ↦ elim (memmem_loop-Found s n left (omega arith)) [
        | inl (k, p, l, st, f) ↦ inl (
          suc k,
          rw (r.1, e, p) refl,
          omega arith,
          st,
          not_before a s n k (unless_true r.0 r.2.1 e) f,
        )
        | inr (p, f) ↦ inr (rw (r.1, e, p) refl, not_before a s n left (unless_true r.0 r.2.1 e) f)
      ]
    ]

-- A block of at least as many bytes as the needle, which is not empty: `memmem` reads nothing beyond
-- the block. It returns the first place of the needle among the offsets below
-- `haystacklen - needlelen`, or NULL where it is at none of these.
pub memmem-Found :
    (s n : List ℕ)
    → 0 < length n
    → length n ≤ length s
    → Found s n (length s - length n) (memmem s (length s) n)
unfolding memmem
memmem-Found s n some_byte fits =
    rw (ne→eqb_false (length n) 0 (omega arith), le→ltb_false (length s) (length n) fits)
      (memmem_loop-Found s n (length s - length n) (omega arith))

-- The needle at the end of the block is not found there: where it stands at the last offset and at no
-- other, the result is NULL.
pub memmem_misses_last :
    (s n : List ℕ)
    → 0 < length n
    → length n ≤ length s
    → Starts (drop (length s - length n) s) n
    → ((j : ℕ) → j < length s - length n → Starts (drop j s) n → ⊥)
    → memmem s (length s) n ≡ some none
memmem_misses_last s n some_byte fits last none_before = elim (memmem-Found s n some_byte fits) [
  | inl (k, p, l, st, f) ↦ absurd (none_before k l st)
  | inr (p, f) ↦ p
]
