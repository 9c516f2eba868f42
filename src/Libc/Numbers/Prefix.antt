-- ===== src/Libc/Numbers/Prefix.antt =====
-- strtoull of libc/src/stdlib_strto.c on a number with the prefix 0x.
use unstable_os.Base.{
  Bool-cases, List, [], arith, inl, inr, ne→eqb_false, refl, some, true, ℕ, ◌!=◌, ◌∷◌, ◌≡◌, ◌≢◌,
  ◌⊎◌,
}
use unstable_os.Libc.Numbers.{strtoull, unchanged}
use unstable_os.Libc.Strings.{char_less, less, more, strcmp}

-- The comparison with the whole string "0x".
strcmp-more :
    (c : ℕ) (s : List ℕ)
    → c ≢ 0
    → (strcmp (48 ∷ (120 ∷ (c ∷ s))) (48 ∷ (120 ∷ (0 ∷ []))) ≡ some less)
      ⊎ (strcmp (48 ∷ (120 ∷ (c ∷ s))) (48 ∷ (120 ∷ (0 ∷ []))) ≡ some more)
unfolding strcmp
strcmp-more c s h =
    let differs : (c != 0) ≡ true = ground arith in
    elim (Bool-cases (char_less c 0)) [
      | inl e ↦ inl (rw (ne→eqb_false c 0 h, e, differs) refl)
      | inr e ↦ inr (rw (ne→eqb_false c 0 h, e, differs) refl)
    ]

-- The base 16 and a prefix 0x with anything behind it: only the 0 is read, and the end is at the x.
pub strtoull_stops_at_x :
    (c : ℕ) (s : List ℕ)
    → c ≢ 0
    → strtoull (48 ∷ (120 ∷ (c ∷ s))) 16
      ≡ some (record { value = 0; end_out = 1; errno = unchanged })
unfolding strtoull
strtoull_stops_at_x c s h =
    let other : strcmp (48 ∷ (120 ∷ (c ∷ s))) (48 ∷ (88 ∷ (0 ∷ []))) ≡ some more =
      unfold strcmp in refl in
    elim (strcmp-more c s h) [ inl e ↦ rw (e, other) refl | inr e ↦ rw (e, other) refl ]
