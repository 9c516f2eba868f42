-- ===== src/Libc/Utf8/Tests.antt =====
-- The conversions on the Euro sign, of three bytes, and on a text with it.
use mathlib.Core.Option
use unstable_os.Base.{
  List, [], arith, drop, inl, length, none, refl, some, true, ℕ, ◌++◌, ◌-◌, ◌<◌, ◌∷◌, ◌≡◌, ◌≤◌, ◌⊎◌,
}
use unstable_os.Libc.Utf8.{char, decode_first, decode_loop, digits_of, mbrtowc, wcrtomb}
use unstable_os.Libc.Utf8.Encode.{utf8, wcrtomb_lem}
use unstable_os.Libc.Utf8.Decode.{mbrtowc-wcrtomb}
use unstable_os.Libc.Utf8.Pieces.{ahead, mbrtowc_pieces}
use unstable_os.Libc.Utf8.Text.{Conversion, mbsnrtowcs}
use unstable_os.Libc.Utf8.TextOut.{mbsnrtowcs-wcsnrtombs, wcsnrtombs}
use unstable_os.Libc.Utf8.Interrupted.{mbsnrtowcs_loses, stopped}

abbrev euro : ℕ
euro = 0x20AC

abbrev blank : List ℕ
blank = 1 ∷ (2 ∷ (3 ∷ (4 ∷ (5 ∷ []))))

wcrtomb_lem_example :
    ((euro ≤ 0x10FFFF)
      × (wcrtomb blank euro
          ≡ (some (length (utf8 euro)), utf8 euro ++ drop (length (utf8 euro)) blank)))
    ⊎ ((0x10FFFF < euro) × (wcrtomb blank euro ≡ (none, blank)))
wcrtomb_lem_example = wcrtomb_lem 1 2 3 4 0x20AC (5 ∷ [])

writes_euro : wcrtomb blank euro ≡ (some 3, 0xE2 ∷ (0x82 ∷ (0xAC ∷ (4 ∷ (5 ∷ [])))))
unfolding wcrtomb digits_of
writes_euro = refl

mbrtowc-wcrtomb_example :
    (k : ℕ) × ((wcrtomb blank euro).0 ≡ some k)
    × ((n : ℕ) → k ≤ n → mbrtowc 0 (wcrtomb blank euro).1 n ≡ some (char k euro, 0))
mbrtowc-wcrtomb_example = mbrtowc-wcrtomb 1 2 3 4 euro (5 ∷ []) (omega arith)

-- Two bytes of the sign, then one.
mbrtowc_pieces_example :
    mbrtowc 0 (0xE2 ∷ (0x82 ∷ (0xAC ∷ []))) 3
    ≡ Option.map (ahead 2) (mbrtowc (0x40000082) (0xAC ∷ []) 1)
unfolding mbrtowc decode_first decode_loop digits_of
mbrtowc_pieces_example =
    mbrtowc_pieces 0 (0x40000082) 0xE2 (0x82 ∷ []) (0xAC ∷ []) 1 (inl refl) (omega arith) refl

abbrev price : List ℕ
price = 0x35 ∷ (euro ∷ [])

mbsnrtowcs-wcsnrtombs_example :
    (r : Conversion) × (wcsnrtombs (price ++ (0 ∷ [])) 9 9 ≡ some r)
    × (r.result ≡ some (length r.stored - 1))
    × (r.src ≡ none)
    × (mbsnrtowcs true (r.stored ++ (7 ∷ [])) 9 9 0
        ≡ some (record { result = some 2; src = none; stored = price ++ (0 ∷ []); state = 0 }))
mbsnrtowcs-wcsnrtombs_example =
    mbsnrtowcs-wcsnrtombs price [] (7 ∷ []) 9 9 9 9
      (omega arith, omega arith, (omega arith, omega arith, tt)) (omega arith) (omega arith)
      (omega arith) (omega arith)

mbsnrtowcs_loses_example :
    (q : ℕ) × (mbsnrtowcs true (utf8 euro ++ []) 1 8 0 ≡ some (stopped (some 0) q))
    × (mbsnrtowcs true (utf8 euro ++ []) 3 8 q ≡ some (stopped none 0))
mbsnrtowcs_loses_example =
    mbsnrtowcs_loses 0x20AC [] 3 8 (omega arith) (omega arith) (omega arith) (omega arith)
