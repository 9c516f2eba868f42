-- ===== src/Libc/Numbers.antt =====
-- The reading of numbers of libc/src/stdlib_strto.c, with the tests on characters of
-- libc/src/ctype.c. A pointer is the list of the bytes from it on, and a read beyond them has no value.
pub mod Printed
pub mod Prefix
mod Tests
use mathlib.Core.Option
use unstable_os.Base.{
  Bool, List, Option, [], drop, false, if◌then◌else◌, leb, ltb, none, not, some, suc, true, ℕ, ◌!=◌,
  ◌%◌, ◌&&◌, ◌*◌, ◌+◌, ◌-◌, ◌==◌, ◌^◌, ◌||◌, ◌∷◌,
}
use unstable_os.Libc.Strings.{Sign, same, strcmp}

abbrev pub isdigit : ℕ → Bool
isdigit c = leb 48 c && leb c 57

abbrev pub islower : ℕ → Bool
islower c = leb 97 c && leb c 122

abbrev pub isupper : ℕ → Bool
isupper c = leb 65 c && leb c 90

abbrev pub isalpha : ℕ → Bool
isalpha c = islower c || isupper c

abbrev pub isalnum : ℕ → Bool
isalnum c = isdigit c || isalpha c

abbrev pub isspace : ℕ → Bool
isspace c = c == 32 || (leb 9 c && leb c 13)

abbrev pub tolower : ℕ → ℕ
tolower c = if isupper c then c + 0x20 else c

-- `_strto_get_value`, with the `char` -1 as 255.
abbrev pub get_value : ℕ → ℕ
get_value c = if isdigit c then c - 48 else if not (isalpha c) then 255 else tolower c - 97 + 10

-- What happens to `errno`.
pub data ErrnoChange : Type 0 where
  unchanged set_einval set_erange : ErrnoChange

-- The value, the offset of `*end_out`, and `errno`.
pub record Parsed : Type 0 where
  pub value : ℕ
  pub end_out : ℕ
  pub errno : ErrnoChange

abbrev pub invalid_arg : Parsed
invalid_arg = record { value = 0; end_out = 0; errno = set_einval }

-- The end, behind the sign.
abbrev pub finish : Bool → ℕ → ErrnoChange → ℕ → Parsed
finish neg acc errno off = record {
  value = if neg then (2 ^ 64 - acc) % 2 ^ 64 else acc;
  end_out = off;
  errno = errno;
}

-- Which of the two functions of the same shape: `strtoull` or `strtoll`.
pub data Width : Type 0 where
  of_unsigned of_signed : Width

-- The values of `acc` without an overflow, which is undefined for `strtoll`.
abbrev pub limit : Width → ℕ
limit of_unsigned = 2 ^ 64
limit of_signed = 2 ^ 63

abbrev pub undefined : Width → ℕ → Bool
undefined of_unsigned full = false
undefined of_signed full = leb (2 ^ 63) full

-- The loop over the digits.
unfoldable pub digits_loop : Width → Bool → ℕ → ℕ → ErrnoChange → List ℕ → ℕ → Option Parsed
digits_loop w neg base acc errno [] off = none
digits_loop w neg base acc errno (c ∷ s) off =
    let val = get_value c in
    let full = acc * base + val in
    let sum = full % 2 ^ 64 in
    let wrapped = digits_loop w neg base (limit w - 1) set_erange s (suc off) in
    let rest = digits_loop w neg base sum errno s (suc off) in
    if not (isalnum c) || (val == 255 || leb base val)
    then some (finish neg acc errno off)
    else if undefined w full
    then none
    else if ltb sum acc
    then wrapped
    else rest

-- The digits behind a prefix that the comparisons have found, or from the start on.
abbrev pub behind_prefix : Width → Bool → List ℕ → ℕ → Option Sign → Option Sign → Option Parsed
behind_prefix w neg s off none o = none
behind_prefix w neg s off (some same) o = digits_loop w neg 16 0 unchanged (drop 2 s) (off + 2)
behind_prefix w neg s off (some x) none = none
behind_prefix w neg s off (some x) (some same) =
    digits_loop w neg 16 0 unchanged (drop 2 s) (off + 2)
behind_prefix w neg s off (some x) (some y) = digits_loop w neg 16 0 unchanged s off

abbrev pub skip_prefix : Width → Bool → ℕ → List ℕ → ℕ → Option Parsed
skip_prefix w neg base s off =
    if base == 16
    then behind_prefix w neg s off (strcmp s (48 ∷ (120 ∷ (0 ∷ []))))
        (strcmp s (48 ∷ (88 ∷ (0 ∷ []))))
    else digits_loop w neg base 0 unchanged s off

abbrev pub after_zero : Width → Bool → List ℕ → ℕ → Option Parsed
after_zero w neg [] off = none
after_zero w neg (c ∷ s) off =
    if tolower c == 120 then skip_prefix w neg 16 s (suc off) else skip_prefix w neg 8 (c ∷ s) off

-- The base 0 asks for the base that the prefix tells.
abbrev pub detect_base : Width → Bool → List ℕ → ℕ → Option Parsed
detect_base w neg [] off = none
detect_base w neg (c ∷ s) off =
    if not (isdigit c)
    then some invalid_arg
    else if c != 48
    then skip_prefix w neg 10 (c ∷ s) off
    else after_zero w neg s (suc off)

abbrev pub after_sign : Width → Bool → ℕ → List ℕ → ℕ → Option Parsed
after_sign w neg base s off =
    if base == 0 then detect_base w neg s off else skip_prefix w neg base s off

-- The spaces, and what follows them.
abbrev pub skip_spaces : Width → ℕ → List ℕ → ℕ → Option Parsed
skip_spaces w base [] off = none
skip_spaces w base (c ∷ s) off =
    let rest = skip_spaces w base s (suc off) in
    if isspace c
    then rest
    else if c == 0
    then some invalid_arg
    else if c == 45
    then after_sign w true base s (suc off)
    else if c == 43
    then after_sign w false base s (suc off)
    else after_sign w false base (c ∷ s) off

abbrev pub unless_empty : Width → ℕ → List ℕ → Option Parsed
unless_empty w base [] = none
unless_empty w base (c ∷ s) = if c == 0 then some invalid_arg else skip_spaces w base (c ∷ s) 0

-- For a `start` that is not null; `base` is a word of 32 bits, so that a negative one is above 36.
abbrev pub parse : Width → List ℕ → ℕ → Option Parsed
parse w start base =
    if ltb 36 base || base == 1 then some invalid_arg else unless_empty w base start

unfoldable pub strtoull : List ℕ → ℕ → Option Parsed
unfolding digits_loop
strtoull start base = parse of_unsigned start base

-- The value is a signed word of 64 bits.
unfoldable pub strtoll : List ℕ → ℕ → Option Parsed
unfolding digits_loop
strtoll start base = parse of_signed start base

-- The result of `strtoull` in a word of 32 bits.
abbrev pub narrow : Parsed → Parsed
narrow p =
    if ltb (2 ^ 32 - 1) p.value then record p { value = 2 ^ 32 - 1; errno = set_erange } else p

pub strtoul : List ℕ → ℕ → Option Parsed
unfolding strtoull
strtoul start base = Option.map narrow (strtoull start base)

-- The result of `strtoll` in a signed word of 32 bits.
abbrev pub narrow_signed : Parsed → Parsed
narrow_signed p =
    if ltb p.value (2 ^ 63) && ltb (2 ^ 31 - 1) p.value
    then record p { value = 2 ^ 31 - 1; errno = set_erange }
    else if leb (2 ^ 63) p.value && ltb p.value (2 ^ 64 - 2 ^ 31)
    then record p { value = 2 ^ 31; errno = set_erange }
    else record p { value = p.value % 2 ^ 32 }

pub strtol : List ℕ → ℕ → Option Parsed
unfolding strtoll
strtol start base = Option.map narrow_signed (strtoll start base)
