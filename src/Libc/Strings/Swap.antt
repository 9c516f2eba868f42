-- ===== src/Libc/Strings/Swap.antt =====
-- The second loop of itoad, itoaud, itoax and itoao of libc/src/string.c reverses what the first wrote.
use unstable_os.Base.{
  Bool, Bool-cases, List, [], arith, eqb_false→ne, eqb_refl, eqb→eq, false, get_or, get_or-set_ne,
  get_or-set_self, if◌then◌else◌, inl, inr, leb, length, length-append, length-set, ltb, refl, set,
  suc, sym, true, zero, ℕ, ◌&&◌, ◌++◌, ◌+◌, ◌-◌, ◌/◌, ◌<◌, ◌==◌, ◌||◌, ◌∙◌, ◌∷◌, ◌≡◌, ◌≢◌, ◌≤◌,
}
use mathlib.Core.Path.{subst}
use unstable_os.Libc.Strings.Digits.{swap_loop}

length-swap_loop : (left ctr i : ℕ) (out : List ℕ) → length (swap_loop left ctr i out) ≡ length out
unfolding swap_loop
length-swap_loop zero ctr i out = refl
length-swap_loop (suc left) ctr i out =
    let a = get_or out (ctr - i) 0 in
    let b = get_or out i 0 in
    length-swap_loop left ctr (i + 1) (set (set out i a) (ctr - i) b)
    ∙ length-set (set out i a) (ctr - i) b
    ∙ length-set out i a

or_true : (x : Bool) → (x || true) ≡ true
or_true true = refl
or_true false = refl

-- One swap, read at any place.
get_or-swap :
    (ctr i k : ℕ) (out : List ℕ)
    → ctr < length out
    → i + i ≤ ctr
    → get_or (set (set out i (get_or out (ctr - i) 0)) (ctr - i) (get_or out i 0)) k 0
      ≡ (if k == i || k == ctr - i then get_or out (ctr - k) 0 else get_or out k 0)
get_or-swap ctr i k out h le =
    let a = get_or out (ctr - i) 0 in
    let b = get_or out i 0 in
    elim (Bool-cases (k == ctr - i)) [
      | inl e ↦
          let q = eqb→eq k (ctr - i) e in
          let back : ctr - (ctr - i) ≡ i = omega arith in
          subst
            (λ j.
              get_or (set (set out i a) (ctr - i) b) j 0
              ≡ (if j == i || j == ctr - i then get_or out (ctr - j) 0 else get_or out j 0))
            (sym q)
            (rw (eqb_refl (ctr - i), back)
              (rw (or_true (ctr - i == i))
                (get_or-set_self (set out i a) (ctr - i) b 0 (omega (arith, length-set out i a)))))
      | inr e ↦ elim (Bool-cases (k == i)) [
        | inl d ↦
            let q = eqb→eq k i d in
            let apart : ctr - i ≢ i = λ x. eqb_false→ne k (ctr - i) e (q ∙ sym x) in
            subst
              (λ j.
                get_or (set (set out i a) (ctr - i) b) j 0
                ≡ (if j == i || j == ctr - i then get_or out (ctr - j) 0 else get_or out j 0))
              (sym q)
              (rw (eqb_refl i)
                (get_or-set_ne (set out i a) b 0 apart ∙ get_or-set_self out i a 0 (omega arith)))
        | inr d ↦
            rw (d, e)
              (get_or-set_ne (set out i a) b 0 (λ x. eqb_false→ne k (ctr - i) e (sym x))
                ∙ get_or-set_ne out a 0 (λ x. eqb_false→ne k i d (sym x)))
      ]
    ]

-- The places that the rounds from `i` on swap.
abbrev swapped : ℕ → ℕ → ℕ → ℕ → Bool
swapped left ctr i k =
    (leb i k && ltb k (i + left)) || (leb i (ctr - k) && ltb (ctr - k) (i + left))

get_or-swap_loop :
    (left ctr i k : ℕ) (out : List ℕ)
    → ctr < length out
    → i + left ≤ ctr / 2 + 1
    → k ≤ ctr
    → get_or (swap_loop left ctr i out) k 0
      ≡ (if swapped left ctr i k then get_or out (ctr - k) 0 else get_or out k 0)
unfolding swap_loop
get_or-swap_loop zero ctr i k out h l hk =
    let none_left : swapped zero ctr i k ≡ false = ground arith in rw none_left refl
get_or-swap_loop (suc left) ctr i k out h l hk =
    let next = set (set out i (get_or out (ctr - i) 0)) (ctr - i) (get_or out i 0) in
    let size =
      length-set (set out i (get_or out (ctr - i) 0)) (ctr - i) (get_or out i 0)
      ∙ length-set out i (get_or out (ctr - i) 0) in
    let ih = get_or-swap_loop left ctr (i + 1) k next (omega (arith, size)) (omega arith) hk in
    let one = get_or-swap ctr i k out h (omega arith) in
    let two = get_or-swap ctr i (ctr - k) out h (omega arith) in
    let back : ctr - (ctr - k) ≡ k = omega arith in
    elim (Bool-cases (swapped left ctr (i + 1) k)) [
      | inl e ↦
          let now : swapped (suc left) ctr i k ≡ true = ground arith in
          let later : (ctr - k == i || ctr - k == ctr - i) ≡ false = ground arith in
          rw now (ih ∙ rw e (two ∙ rw later refl))
      | inr e ↦ elim (Bool-cases (k == i || k == ctr - i)) [
        | inl d ↦
            let now : swapped (suc left) ctr i k ≡ true = ground arith in
            rw now (ih ∙ rw e (one ∙ rw d refl))
        | inr d ↦
            let now : swapped (suc left) ctr i k ≡ false = ground arith in
            rw now (ih ∙ rw e (one ∙ rw d refl))
      ]
    ]

get_or-swap_all :
    (ctr k : ℕ) (out : List ℕ)
    → ctr < length out
    → k ≤ ctr
    → get_or (swap_loop (ctr / 2 + 1) ctr 0 out) k 0 ≡ get_or out (ctr - k) 0
get_or-swap_all ctr k out h hk =
    let covered : swapped (ctr / 2 + 1) ctr 0 k ≡ true = ground arith in
    get_or-swap_loop (ctr / 2 + 1) ctr 0 k out h (omega arith) hk ∙ rw covered refl

abbrev pub reverse : List ℕ → List ℕ
reverse [] = []
reverse (x ∷ xs) = reverse xs ++ (x ∷ [])

pub length-reverse : (xs : List ℕ) → length (reverse xs) ≡ length xs
length-reverse [] = refl
length-reverse (x ∷ xs) = omega (arith, length-append (reverse xs) (x ∷ []), length-reverse xs)

get_or-append : (xs ys : List ℕ) (k : ℕ) → k < length xs → get_or (xs ++ ys) k 0 ≡ get_or xs k 0
get_or-append [] ys k h = absurd (omega arith)
get_or-append (x ∷ xs) ys zero h = refl
get_or-append (x ∷ xs) ys (suc k) h = get_or-append xs ys k (omega arith)

get_or-append_end : (xs : List ℕ) (y : ℕ) → get_or (xs ++ (y ∷ [])) (length xs) 0 ≡ y
get_or-append_end [] y = refl
get_or-append_end (x ∷ xs) y = get_or-append_end xs y

get_or-reverse :
    (xs : List ℕ) (k : ℕ)
    → k < length xs
    → get_or (reverse xs) (length xs - 1 - k) 0 ≡ get_or xs k 0
get_or-reverse [] k h = absurd (omega arith)
get_or-reverse (x ∷ xs) zero h =
    let e : suc (length xs) - 1 - 0 ≡ length (reverse xs) = omega (arith, length-reverse xs) in
    rw e (get_or-append_end (reverse xs) x)
get_or-reverse (x ∷ xs) (suc k) h =
    let e : suc (length xs) - 1 - suc k ≡ length xs - 1 - k = omega arith in
    rw e (
      get_or-append (reverse xs) (x ∷ []) (length xs - 1 - k) (omega (arith, length-reverse xs))
      ∙ get_or-reverse xs k (omega arith))

same_list :
    (xs ys : List ℕ)
    → length xs ≡ length ys
    → ((k : ℕ) → k < length xs → get_or xs k 0 ≡ get_or ys k 0)
    → xs ≡ ys
same_list [] [] l h = refl
same_list [] (y ∷ ys) l h = absurd (omega arith)
same_list (x ∷ xs) [] l h = absurd (omega arith)
same_list (x ∷ xs) (y ∷ ys) l h =
    let head : x ≡ y = h 0 (omega arith) in
    let tail = same_list xs ys (omega arith) (λ k lt. h (suc k) (omega arith)) in
    rw (head, tail) refl

pub swap_loop-reverse :
    (out : List ℕ)
    → out ≢ []
    → swap_loop ((length out - 1) / 2 + 1) (length out - 1) 0 out ≡ reverse out
swap_loop-reverse [] h = absurd (h refl)
swap_loop-reverse (x ∷ xs) h =
    let out = x ∷ xs in
    let ctr = length out - 1 in
    let size = length-swap_loop (ctr / 2 + 1) ctr 0 out in
    same_list (swap_loop (ctr / 2 + 1) ctr 0 out) (reverse out) (size ∙ sym (length-reverse out))
      (λ k lt.
        let le : k ≤ ctr = omega (arith, size) in
        let back : length out - 1 - (ctr - k) ≡ k = omega arith in
        let r : get_or (reverse out) k 0 ≡ get_or out (ctr - k) 0 =
          rw back at (get_or-reverse out (ctr - k) (omega arith)) in
        get_or-swap_all ctr k out (omega arith) le ∙ sym r)
