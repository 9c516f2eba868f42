-- ===== src/Libc/Strings/Compare.antt =====
-- strnlen and strcmp of libc/src/string.c against the string that a pointer stands for.
use unstable_os.Base.{
  Bool-cases, List, [], ap, arith, drop, eqb_false→ne, eqb→eq, false, get_or, if◌then◌else◌, inl,
  inr, length, min, ne→eqb_false, refl, some, suc, sym, true, zero, ℕ, ◌!=◌, ◌&&◌, ◌==◌, ◌↔◌, ◌∙◌,
  ◌∷◌, ◌≡◌, ◌≢◌,
}
use unstable_os.Libc.Strings.{Sign, char_less, less, more, same, strcmp, strnlen}

-- The bytes `x` are not 0 and stand before a terminator.
pub data Spells : List ℕ → List ℕ → Type 0 where
  ends : {s : List ℕ} → Spells (0 ∷ s) []
  next : {a : ℕ} {s x : List ℕ} → a ≢ 0 → Spells s x → Spells (a ∷ s) (a ∷ x)

-- On a terminated string `strnlen` reads no further than the terminator and returns the length of the
-- string, cut off at `n`.
pub strnlen_lem : (s x : List ℕ) (n : ℕ) → Spells s x → strnlen s n ≡ some (min n (length x))
unfolding strnlen
strnlen_lem _ _ zero d = ap some (omega arith)
strnlen_lem _ _ (suc n) ends = ap some (omega arith)
strnlen_lem _ _ (suc n) (next {a = a} {s = s} {x = x} ne d) =
    rw (ne→eqb_false a 0 ne, strnlen_lem s x n d) (ap some (omega arith))

strcmp_apart :
    (a b : ℕ) (s t : List ℕ) → a ≢ b → (r : Sign) × (strcmp (a ∷ s) (b ∷ t) ≡ some r) × (r ≢ same)
unfolding strcmp
strcmp_apart a b s t ne = (
  if char_less a b then less else more,
  rw (both, different) refl,
  elim (Bool-cases (char_less a b)) [
    | inl e ↦ rw e (λ k. ground arith)
    | inr e ↦ rw e (λ k. ground arith)
  ],
)
  where
    both : (a == 0 && b == 0) ≡ false
    both = ground arith

    different : (a != b) ≡ true
    different = ground arith

-- On terminated strings `strcmp` reads no further than the terminators and returns 0 exactly when the
-- strings are equal.
pub strcmp-same_iff :
    (s t x y : List ℕ)
    → Spells s x
    → Spells t y
    → (r : Sign) × (strcmp s t ≡ some r) × ((r ≡ same) ↔ (x ≡ y))
unfolding strcmp
strcmp-same_iff _ _ _ _ ends ends = (same, refl, (λ e. refl, λ e. refl))
strcmp-same_iff _ _ _ _ (ends {s = s}) (next {a = b} {s = t} {x = y} ne e) =
    let r = strcmp_apart 0 b s t (λ k. ne (sym k)) in
    (r.0, r.1, (λ k. absurd (r.2 k), λ k. absurd (ground arith)))
strcmp-same_iff _ _ _ _ (next {a = a} {s = s} {x = x} ne d) (ends {s = t}) =
    let r = strcmp_apart a 0 s t ne in (r.0, r.1, (λ k. absurd (r.2 k), λ k. absurd (ground arith)))
strcmp-same_iff _ _ _ _ (next {a = a} {s = s} {x = x} na d) (next {a = b} {s = t} {x = y} nb e) =
    elim (Bool-cases (a == b)) [
      | inl k ↦
          let r = strcmp-same_iff s t x y d e in
          let both : (a == 0 && b == 0) ≡ false = ground arith in
          let different : (a != b) ≡ false = ground arith in
          (
            r.0,
            rw (both, different) r.1,
            (
              λ q. ap (λ c. c ∷ x) (eqb→eq a b k) ∙ ap (λ l. b ∷ l) (r.2.0 q),
              λ q. r.2.1 (ap (λ l. drop 1 l) q),
            ),
          )
      | inr k ↦
          let r = strcmp_apart a b s t (eqb_false→ne a b k) in
          (
            r.0,
            r.1,
            (λ q. absurd (r.2 q), λ q. absurd (eqb_false→ne a b k (ap (λ l. get_or l 0 0) q))),
          )
    ]
