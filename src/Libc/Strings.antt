-- ===== src/Libc/Strings.antt =====
-- Strings and blocks of memory, libc/src/string.c. A pointer is the list of the bytes from it to the
-- end of the memory that may be read; a read beyond it has no value, the outer `none`. `char` is signed
-- and has 8 bits, `int` has 32. A pointer into the argument is returned as its offset, `NULL` as the
-- inner `none`.
pub mod Compare
pub mod Find
pub mod Digits
pub mod Swap
mod Tests
use mathlib.Core.Option
use unstable_os.Base.{
  Bool, List, Option, [], drop, false, get_elem?, get_or, if◌then◌else◌, length, ltb, none, some,
  suc, true, zero, ℕ, ◌!=◌, ◌%◌, ◌&&◌, ◌+◌, ◌-◌, ◌==◌, ◌^◌, ◌||◌, ◌∷◌,
}

-- A `char` where an `int` is wanted.
abbrev pub to_int : ℕ → ℕ
to_int b = if ltb b 128 then b else b + (2 ^ 32 - 256)

abbrev pub char_less : ℕ → ℕ → Bool
char_less a b = ltb ((a + 128) % 256) ((b + 128) % 256)

-- The offset of the terminator, which `repnz scasb` counts.
unfoldable pub strlen : List ℕ → Option ℕ
strlen [] = none
strlen (a ∷ s) = if a == 0 then some 0 else Option.map suc (strlen s)

pub strnlen : List ℕ → ℕ → Option ℕ
strnlen s zero = some 0
strnlen [] (suc n) = none
strnlen (a ∷ s) (suc n) = if a == 0 then some 0 else Option.map suc (strnlen s n)

pub memchr : List ℕ → ℕ → ℕ → Option (Option ℕ)
memchr s c zero = some none
memchr [] c (suc n) = none
memchr (a ∷ s) c (suc n) =
    if a == c % 256 then some (some 0) else Option.map (Option.map suc) (memchr s c n)

-- The inner loop of `memmem`: all bytes of the needle are at the start of the list.
pub starts_with : List ℕ → List ℕ → Option Bool
starts_with s [] = some true
starts_with [] (b ∷ n) = none
starts_with (a ∷ s) (b ∷ n) = if a == b then starts_with s n else some false

abbrev pub or_later : Option Bool → Option (Option ℕ) → Option (Option ℕ)
or_later none later = none
or_later (some true) later = some (some 0)
or_later (some false) later = Option.map (Option.map suc) later

-- The outer loop, over `left` offsets.
pub memmem_loop : List ℕ → List ℕ → ℕ → Option (Option ℕ)
unfolding starts_with
memmem_loop s n zero = some none
memmem_loop s n (suc left) = or_later (starts_with s n) (memmem_loop (drop 1 s) n left)

-- `needle` has exactly `needlelen` bytes.
unfoldable pub memmem : List ℕ → ℕ → List ℕ → Option (Option ℕ)
unfolding memmem_loop
memmem s haystacklen needle =
    if length needle == 0
    then some (some 0)
    else if ltb haystacklen (length needle)
    then some none
    else memmem_loop s needle (haystacklen - length needle)

-- -1, 0 and 1.
pub data Sign : Type 0 where
  less same more : Sign

unfoldable pub strcmp : List ℕ → List ℕ → Option Sign
strcmp [] t = none
strcmp (a ∷ s) [] = none
strcmp (a ∷ s) (b ∷ t) =
    let rest = strcmp s t in
    if a == 0 && b == 0
    then some same
    else if a != b
    then some (if char_less a b then less else more)
    else rest

pub strncmp : List ℕ → List ℕ → ℕ → Option Sign
strncmp s t zero = some same
strncmp [] t (suc n) = none
strncmp (a ∷ s) [] (suc n) = none
strncmp (a ∷ s) (b ∷ t) (suc n) =
    let rest = strncmp s t n in
    if a == 0 && b == 0
    then some same
    else if a != b
    then some (if char_less a b then less else more)
    else rest

pub strchrnul : List ℕ → ℕ → Option ℕ
strchrnul [] c = none
strchrnul (a ∷ s) c = if a == 0 || to_int a == c then some 0 else Option.map suc (strchrnul s c)

-- What `strchr` makes of the byte at the offset.
abbrev pub unless_end : ℕ → Option ℕ → ℕ → Option (Option ℕ)
unless_end c none k = none
unless_end c (some b) k = if b == 0 && c != 0 then some none else some (some k)

abbrev pub found_char : ℕ → List ℕ → Option ℕ → Option (Option ℕ)
found_char c s none = none
found_char c s (some k) = unless_end c (get_elem? s k) k

unfoldable pub strchr : List ℕ → ℕ → Option (Option ℕ)
unfolding strchrnul
strchr s c = found_char c s (strchrnul s c)

-- The loop of `strrchr` over the first `i` bytes, from the last on.
unfoldable pub last_loop : List ℕ → ℕ → ℕ → Option ℕ
last_loop s c zero = none
last_loop s c (suc i) = if to_int (get_or s i 0) == c then some i else last_loop s c i

unfoldable pub strrchr : List ℕ → ℕ → Option (Option ℕ)
unfolding strlen last_loop
strrchr s c = Option.map (λ n. last_loop s c n) (strlen s)
