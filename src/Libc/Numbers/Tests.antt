-- ===== src/Libc/Numbers/Tests.antt =====
-- strtoull and strtoll on short texts.
use unstable_os.Base.{[], arith, length, none, refl, replicate, some, ◌*◌, ◌++◌, ◌-◌, ◌^◌, ◌∷◌, ◌≡◌}
use unstable_os.Libc.Numbers.{digits_loop, strtoll, strtoull, unchanged}
use unstable_os.Libc.Strings.Digits.{convert, itoad, itoaud, swap_loop, write_digits}
use unstable_os.Libc.Numbers.Printed.{strtoll-itoad, strtoull-itoaud}

strtoull-itoaud_example :
    strtoull (itoaud 1203 ++ (9 ∷ [])) 10
    ≡ some (record { value = 1203; end_out = length (itoaud 1203) - 1; errno = unchanged })
strtoull-itoaud_example = strtoull-itoaud 1203 (9 ∷ []) (omega arith)

-- " -12;" in the base that the text tells
reads_signed :
    strtoull (32 ∷ (45 ∷ (49 ∷ (50 ∷ (59 ∷ []))))) 0
    ≡ some (record { value = 2 ^ 64 - 12; end_out = 4; errno = unchanged })
unfolding strtoull digits_loop
reads_signed = refl

-- 30000000000000000000 is above 2 ^ 64, and no error is reported.
misses_overflow :
    strtoull ((51 ∷ replicate 19 48) ++ (0 ∷ [])) 10
    ≡ some (record { value = 3 * 10 ^ 19 - 2 ^ 64; end_out = 20; errno = unchanged })
unfolding strtoull digits_loop
misses_overflow = refl

-- -1203
strtoll-itoad_example :
    strtoll (itoad (2 ^ 64 - 1203) ++ (9 ∷ [])) 10
    ≡ some (record {
      value = 2 ^ 64 - 1203;
      end_out = length (itoad (2 ^ 64 - 1203)) - 1;
      errno = unchanged;
    })
strtoll-itoad_example = strtoll-itoad (2 ^ 64 - 1203) (9 ∷ []) (omega arith) (omega arith)

-- The least number overflows on its last digit.
overflows_at_least : strtoll (itoad (2 ^ 63)) 10 ≡ none
unfolding strtoll digits_loop itoad convert write_digits swap_loop
overflows_at_least = refl
