-- ===== src/Libc/Utf8/TextOut.antt =====
-- `wcsnrtombs` of libc/src/wchar/convs.c, and the way back.
use mathlib.Core.List.{append_assoc}
use unstable_os.Base.{
  List, Option, [], ap, arith, drop, if◌then◌else◌, inl, inr, length, length-append, le→ltb_false,
  ltb, lt→ltb, min, ne→eqb_false, none, refl, some, suc, take, true, ℕ, ◌&&◌, ◌++◌, ◌+◌, ◌-◌, ◌<◌,
  ◌==◌, ◌^◌, ◌∙◌, ◌∷◌, ◌≡◌, ◌≤◌,
}
use unstable_os.Libc.Utf8.{wcrtomb}
use unstable_os.Libc.Utf8.Encode.{utf8, wcrtomb_lem}
use unstable_os.Libc.Utf8.Text.{
  Conversion, IsText, encode, mbsnrtowcs, mbsnrtowcs-encode, utf8_size,
}

-- `buf`, of which only what `wcrtomb` writes is read.
abbrev buf : List ℕ
buf = 0 ∷ (0 ∷ (0 ∷ (0 ∷ [])))

-- The rest of a round behind `wcrtomb` on the character `c`, with `to_write`.
abbrev pub after_bytes :
    ℕ
    → ℕ
    → ℕ
    → ℕ
    → List ℕ
    → (ℕ → List ℕ → Option Conversion)
    → Option ℕ × List ℕ
    → Option Conversion
after_bytes c off i to_write out next (none, s) =
    some (record { result = none; src = some 0; stored = out; state = 0 })
after_bytes c off i to_write out next (some k, s) =
    let out' = out ++ take k s in
    let rest = next (i + k) out' in
    if ltb to_write k
    then some (record { result = some i; src = some off; stored = out; state = 0 })
    else if c == 0
    then some (record { result = some i; src = none; stored = out'; state = 0 })
    else rest

-- The loop with the characters from `s`, the offset of `s` in `*src`, `i` and the bytes stored.
pub wcs_loop : ℕ → ℕ → List ℕ → ℕ → ℕ → List ℕ → Option Conversion
wcs_loop nwc len [] off i out =
    if ltb i len && ltb off nwc
    then none
    else some (record { result = some i; src = some off; stored = out; state = 0 })
wcs_loop nwc len (c ∷ s) off i out =
    let round =
      after_bytes c off i (min (len - i) 4) out (λ i' out'. wcs_loop nwc len s (suc off) i' out')
        (wcrtomb buf c) in
    if ltb i len && ltb off nwc
    then round
    else some (record { result = some i; src = some off; stored = out; state = 0 })

-- For a `dst` that is not null.
unfoldable pub wcsnrtombs : List ℕ → ℕ → ℕ → Option Conversion
unfolding wcs_loop
wcsnrtombs s nwc len = wcs_loop nwc len s 0 0 []

pub wcsrtombs : List ℕ → ℕ → Option Conversion
unfolding wcsnrtombs
wcsrtombs s len = wcsnrtombs s (2 ^ 32 - 1) len

take_front : (u x : List ℕ) → take (length u) (u ++ x) ≡ u
take_front [] x = refl
take_front (a ∷ u) x = ap (λ l. a ∷ l) (take_front u x)

wcrtomb-utf8 :
    (c : ℕ)
    → c ≤ 0x10FFFF
    → wcrtomb buf c ≡ (some (length (utf8 c)), utf8 c ++ drop (length (utf8 c)) buf)
wcrtomb-utf8 c h = elim (wcrtomb_lem 0 0 0 0 c []) [
  | inl p ↦ p.1
  | inr p ↦ absurd (omega (arith, p.0))
]

encode_size : (cs : List ℕ) → 0 < length (encode cs)
encode_size [] = omega arith
encode_size (c ∷ cs) = omega (arith, (utf8_size c).0, length-append (utf8 c) (encode cs))

wcs_loop-encode :
    (cs t out : List ℕ) (nwc len off i : ℕ)
    → IsText cs
    → off + length cs < nwc
    → i + length (encode cs) ≤ len
    → wcs_loop nwc len (cs ++ (0 ∷ t)) off i out
      ≡ some (record {
        result = some (i + (length (encode cs) - 1));
        src = none;
        stored = out ++ encode cs;
        state = 0;
      })
unfolding wcs_loop
wcs_loop-encode [] t out nwc len off i v h l =
    let a : i + 0 ≡ i = omega arith in
    rw
      (
        lt→ltb i len (omega arith),
        lt→ltb off nwc (omega arith),
        wcrtomb-utf8 0 (omega arith),
        le→ltb_false (min (len - i) 4) 1 (omega arith),
        a,
      )
      refl
wcs_loop-encode (c ∷ cs) t out nwc len off i v h l =
    let b = utf8_size c in
    let size = length-append (utf8 c) (encode cs) in
    let n : i + length (utf8 c) + (length (encode cs) - 1)
        ≡ i + (length (utf8 c ++ encode cs) - 1) =
      omega (arith, size, encode_size cs) in
    rw
      (
        lt→ltb i len (omega (arith, b.0, size)),
        lt→ltb off nwc (omega arith),
        wcrtomb-utf8 c v.1,
        take_front (utf8 c) (drop (length (utf8 c)) buf),
        le→ltb_false (min (len - i) 4) (length (utf8 c)) (omega (arith, b.1, size)),
        ne→eqb_false c 0 v.0,
      )
      (wcs_loop-encode cs t (out ++ utf8 c) nwc len (suc off) (i + length (utf8 c)) v.2
          (omega arith) (omega (arith, size))
        ∙ rw (append_assoc out (utf8 c) (encode cs), n) refl)

wcsnrtombs-encode :
    (cs t : List ℕ) (nwc len : ℕ)
    → IsText cs
    → length cs < nwc
    → length (encode cs) ≤ len
    → wcsnrtombs (cs ++ (0 ∷ t)) nwc len
      ≡ some (record {
        result = some (length (encode cs) - 1);
        src = none;
        stored = encode cs;
        state = 0;
      })
unfolding wcsnrtombs
wcsnrtombs-encode cs t nwc len v h l =
    let z : 0 + (length (encode cs) - 1) ≡ length (encode cs) - 1 = omega arith in
    wcs_loop-encode cs t [] nwc len 0 0 v (omega arith) (omega arith) ∙ rw z refl

-- A terminated text of characters up to 0x10FFFF that `wcsnrtombs` has room to write is read back by
-- `mbsnrtowcs` as it was. Both return the size of what they stored without the terminator.
pub mbsnrtowcs-wcsnrtombs :
    (cs t rest : List ℕ) (nwc len nmc size : ℕ)
    → IsText cs
    → length cs < nwc
    → length (encode cs) ≤ len
    → length (encode cs) ≤ nmc
    → length cs < size
    → (r : Conversion) × (wcsnrtombs (cs ++ (0 ∷ t)) nwc len ≡ some r)
      × (r.result ≡ some (length r.stored - 1))
      × (r.src ≡ none)
      × (mbsnrtowcs true (r.stored ++ rest) nmc size 0
          ≡ some (record {
            result = some (length cs);
            src = none;
            stored = cs ++ (0 ∷ []);
            state = 0;
          }))
mbsnrtowcs-wcsnrtombs cs t rest nwc len nmc size v h l k m =
    (_, wcsnrtombs-encode cs t nwc len v h l, refl, refl, mbsnrtowcs-encode cs rest nmc size v k m)
