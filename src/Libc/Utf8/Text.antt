-- ===== src/Libc/Utf8/Text.antt =====
-- The conversions of whole texts of libc/src/wchar/convs.c, for a state that is given.
use unstable_os.Base.{
  Bool, List, Option, [], arith, drop, if◌then◌else◌, length, length-append, ltb, lt→ltb, min,
  ne→eqb_false, none, not, refl, some, suc, true, zero, ℕ, ◌&&◌, ◌++◌, ◌+◌, ◌-◌, ◌<◌, ◌==◌, ◌^◌,
  ◌||◌, ◌∙◌, ◌∷◌, ◌≡◌, ◌≢◌, ◌≤◌,
}
use mathlib.Core.List.{append_assoc}
use unstable_os.Libc.Utf8.Decode.{mbrtowc-utf8}
use unstable_os.Libc.Utf8.Encode.{utf8}
use unstable_os.Libc.Utf8.{Decoded, char, ilseq, incomplete, mbrtowc}

-- What a call returns, with `none` for -1; the offset that it leaves in `*src`, with `none` for `NULL`; what
-- it has stored at `dst`; and the state.
pub record Conversion : Type 0 where
  pub result : Option ℕ
  pub src : Option ℕ
  pub stored : List ℕ
  pub state : ℕ

-- The rest of a round of `mbsnrtowcs` behind `mbrtowc`, for the offset, the characters so far and what is
-- stored of them, before the next rounds.
abbrev pub after_char :
    Bool
    → ℕ
    → ℕ
    → List ℕ
    → (ℕ → ℕ → ℕ → List ℕ → Option Conversion)
    → Option (Decoded × ℕ)
    → Option Conversion
after_char dst off i out next none = none
after_char dst off i out next (some (incomplete, ps)) =
    some (record { result = some i; src = some off; stored = out; state = ps })
after_char dst off i out next (some (ilseq, ps)) =
    some (record { result = none; src = some 0; stored = out; state = ps })
after_char dst off i out next (some (char k c, ps)) =
    let out' = if dst then out ++ (c ∷ []) else out in
    let rest = next k (suc i) ps out' in
    if c == 0
    then some (record { result = some i; src = none; stored = out'; state = ps })
    else rest

-- The loop of `mbsnrtowcs` with the bytes from `s`, the offset of `s` in `*src`, `i` and what is stored;
-- `dst` tells that the pointer is not null. A round moves `s` by at least one byte of `nmc`.
unfoldable pub mbs_loop : ℕ → Bool → ℕ → ℕ → List ℕ → ℕ → ℕ → ℕ → List ℕ → Option Conversion
mbs_loop zero dst nmc len s off i ps out =
    some (record { result = some i; src = some off; stored = out; state = ps })
mbs_loop (suc fuel) dst nmc len s off i ps out =
    let round =
      after_char dst off i out
        (λ k i' ps' out'. mbs_loop fuel dst nmc len (drop k s) (off + k) i' ps' out')
        (mbrtowc ps s (min (nmc - off) 4)) in
    if (not dst || ltb i len) && ltb off nmc
    then round
    else some (record { result = some i; src = some off; stored = out; state = ps })

unfoldable pub mbsnrtowcs : Bool → List ℕ → ℕ → ℕ → ℕ → Option Conversion
unfolding mbs_loop
mbsnrtowcs dst s nmc len ps = mbs_loop nmc dst nmc len s 0 0 ps []

pub mbsrtowcs : Bool → List ℕ → ℕ → ℕ → Option Conversion
unfolding mbsnrtowcs
mbsrtowcs dst s len ps = mbsnrtowcs dst s (2 ^ 32 - 1) len ps

-- The bytes of a text with its terminator.
abbrev pub encode : List ℕ → List ℕ
encode [] = 0 ∷ []
encode (c ∷ cs) = utf8 c ++ encode cs

-- Characters other than the terminator.
abbrev pub IsText : List ℕ → Type 0
IsText [] = Unit
IsText (c ∷ cs) = (c ≢ 0) × (c ≤ 0x10FFFF) × IsText cs

drop-append : (u x : List ℕ) → drop (length u) (u ++ x) ≡ x
drop-append [] x = refl
drop-append (a ∷ u) x = drop-append u x

pub utf8_size : (c : ℕ) → (0 < length (utf8 c)) × (length (utf8 c) ≤ 4)
utf8_size c = ground arith

-- A round that reads the bytes `u` of a character.
mbs_loop-round :
    (u x out : List ℕ) (fuel nmc len off i c : ℕ)
    → c ≢ 0
    → i < len
    → off < nmc
    → mbrtowc 0 (u ++ x) (min (nmc - off) 4) ≡ some (char (length u) c, 0)
    → mbs_loop (suc fuel) true nmc len (u ++ x) off i 0 out
      ≡ mbs_loop fuel true nmc len x (off + length u) (suc i) 0 (out ++ (c ∷ []))
unfolding mbs_loop
mbs_loop-round u x out fuel nmc len off i c nz room more e =
    rw (lt→ltb i len room, lt→ltb off nmc more, e, ne→eqb_false c 0 nz, drop-append u x) refl

mbs_loop-encode :
    (cs t out : List ℕ) (fuel nmc len off i : ℕ)
    → IsText cs
    → length (encode cs) ≤ fuel
    → off + length (encode cs) ≤ nmc
    → i + length cs < len
    → mbs_loop fuel true nmc len (encode cs ++ t) off i 0 out
      ≡ some (record {
        result = some (i + length cs);
        src = none;
        stored = out ++ (cs ++ (0 ∷ []));
        state = 0;
      })
mbs_loop-encode [] t out zero nmc len off i v f h l = absurd (omega arith)
mbs_loop-encode [] t out (suc fuel) nmc len off i v f h l =
    let a : i + 0 ≡ i = omega arith in
    let e : min (nmc - off) 4 ≡ 1 + (min (nmc - off) 4 - 1) = omega arith in
    unfold mbs_loop in
    rw
      (
        lt→ltb i len (omega arith),
        lt→ltb off nmc (omega arith),
        e,
        mbrtowc-utf8 0 (min (nmc - off) 4 - 1) t (omega arith),
        a,
      )
      refl
mbs_loop-encode (c ∷ cs) t out zero nmc len off i v f h l =
    absurd (omega (arith, (utf8_size c).0, length-append (utf8 c) (encode cs)))
mbs_loop-encode (c ∷ cs) t out (suc fuel) nmc len off i v f h l =
    let u = utf8 c in
    let b = utf8_size c in
    let size = length-append u (encode cs) in
    let e : length u + (min (nmc - off) 4 - length u) ≡ min (nmc - off) 4 =
      omega (arith, b.0, b.1, size) in
    let one = mbrtowc-utf8 c (min (nmc - off) 4 - length u) (encode cs ++ t) v.1 in
    let n : suc i + length cs ≡ i + suc (length cs) = omega arith in
    rw (append_assoc u (encode cs) t) (
      mbs_loop-round u (encode cs ++ t) out fuel nmc len off i c v.0 (omega arith)
        (omega (arith, b.0, size)) (rw e at one)
      ∙ mbs_loop-encode cs t (out ++ (c ∷ [])) fuel nmc len (off + length u) (suc i) v.2
          (omega (arith, b.0, size)) (omega (arith, size)) (omega arith)
      ∙ rw (append_assoc out (c ∷ []) (cs ++ (0 ∷ [])), n) refl)

-- A text that ends in a terminator, with any bytes behind it, is converted whole if `nmc` covers it and
-- `len` leaves room: the characters are stored with the terminator, their number is returned without it,
-- and `*src` becomes `NULL`.
pub mbsnrtowcs-encode :
    (cs t : List ℕ) (nmc len : ℕ)
    → IsText cs
    → length (encode cs) ≤ nmc
    → length cs < len
    → mbsnrtowcs true (encode cs ++ t) nmc len 0
      ≡ some (record { result = some (length cs); src = none; stored = cs ++ (0 ∷ []); state = 0 })
unfolding mbsnrtowcs
mbsnrtowcs-encode cs t nmc len v h l =
    let z : 0 + length cs ≡ length cs = omega arith in
    mbs_loop-encode cs t [] nmc nmc len 0 0 v h (omega arith) (omega arith) ∙ rw z refl
