-- ===== src/Libc/Utf8.antt =====
-- The conversions between wide characters and UTF-8 of libc/src/wchar/convs.c. `wchar_t`, `wint_t` and
-- `mbstate_t` are words of 32 bits, so that a negative `wchar_t` is a large one. A pointer is the list of
-- the bytes from it on; a read beyond them, and `__builtin_clz` of 0, have no value.
pub mod Encode
pub mod Decode
pub mod Pieces
pub mod Text
pub mod TextOut
pub mod Interrupted
mod Tests
use unstable_os.Base.{
  List, Option, [], if◌then◌else◌, ltb, none, set, some, suc, zero, ℕ, ◌!=◌, ◌%◌, ◌&&◌, ◌*◌, ◌+◌,
  ◌-◌, ◌/◌, ◌==◌, ◌^◌, ◌||◌, ◌∷◌,
}
use Prim.Native.Nat.{bit_or}

-- The binary digits of a word, which has at most as many as the fuel.
unfoldable pub digits_of : ℕ → ℕ → ℕ
digits_of zero c = 0
digits_of (suc fuel) c = let rest = digits_of fuel (c / 2) in if c == 0 then 0 else suc rest

-- `__builtin_clz`
abbrev pub clz : ℕ → ℕ
clz c = 32 - digits_of 32 c

-- The first loop of `wcrtomb`: how often `c` is shifted, and what is left. A word is shifted at most
-- five times.
abbrev pub shift_out : ℕ → ℕ → ℕ → ℕ × ℕ
shift_out zero b c = (b, c)
shift_out (suc fuel) b c =
    let rest = shift_out fuel (b + 1) (c / 64) in if ltb c 128 then (b, c) else rest

-- The second loop, with the index, `c` and the bytes at `s`.
abbrev pub put_tail : ℕ → ℕ → ℕ → List ℕ → ℕ × ℕ × List ℕ
put_tail zero i c s = (i, c, s)
put_tail (suc fuel) i c s =
    let rest = put_tail fuel (i - 1) (c / 64) (set s i (c % 64 + 128)) in
    if ltb c 128 then (i, c, s) else rest

-- The first byte.
abbrev pub put_head : ℕ → ℕ → List ℕ → List ℕ
put_head b c s = set s 0 (bit_or (256 - 2 ^ (7 - b)) c)

-- What is left of `c` behind the second loop.
abbrev pub put_rest : ℕ → ℕ × ℕ × List ℕ → List ℕ
put_rest b (i, c, s) =
    if ltb (clz c - 24) (b + 1)
    then put_head b (c / 64) (set s i (c % 64 + 128))
    else put_head b c s

-- `b` from what the first loop leaves.
abbrev pub extra_bytes : ℕ × ℕ → ℕ
extra_bytes (b, c) = if ltb (clz c - 24) (b + 2) then b + 1 else b

-- For an `s` that is not null: the result, with `none` for -1 and EILSEQ, and the bytes at `s`.
unfoldable pub wcrtomb : List ℕ → ℕ → Option ℕ × List ℕ
wcrtomb s wc =
    let first = shift_out 6 0 wc in
    let b = extra_bytes first in
    if ltb 0x10FFFF wc
    then (none, s)
    else if first.0 == 0
    then (some 1, set s 0 wc)
    else (some (b + 1), put_rest b (put_tail 6 b wc s))

-- The results of `mbrtowc`: the number of bytes with the character, -2, and -1 with EILSEQ.
pub data Decoded : Type 0 where
  char : ℕ → ℕ → Decoded
  incomplete ilseq : Decoded

-- The loop, with `*ps`, `remain`, `i`, the bytes from `s + i` and `n - i`.
unfoldable pub decode_loop : ℕ → ℕ → ℕ → List ℕ → ℕ → Option (Decoded × ℕ)
decode_loop ps remain i s zero = some (incomplete, ps % 2 ^ 30 + remain % 4 * 2 ^ 30)
decode_loop ps remain i [] (suc left) = none
decode_loop ps remain i (b ∷ s) (suc left) =
    let ps' = ps * 64 % 2 ^ 32 + b % 64 in
    let remain' = (remain + (2 ^ 32 - 1)) % 2 ^ 32 in
    let rest = decode_loop ps' remain' (suc i) s left in
    if remain != 0 && b / 64 != 2
    then some (ilseq, 0)
    else if remain' == 0
    then some (char (suc i) ps', 0)
    else rest

-- The continuation bytes that the first byte of a longer character asks for, and one more.
abbrev pub lead : ℕ → ℕ
lead b = clz (255 - b) - 24

unfoldable pub decode_first : ℕ → List ℕ → ℕ → Option (Decoded × ℕ)
unfolding decode_loop
decode_first b s n =
    let w = lead b - 1 in
    let rest = decode_loop (b % 2 ^ (6 - w) + w * 2 ^ 30) w 1 s (n - 1) in
    if ltb b 128
    then some (char 1 b, 0)
    else if b == 255
    then none
    else if ltb 4 (lead b) || lead b == 1
    then some (ilseq, 0)
    else rest

-- For an `s` that is not null, with the state: the result and the new state.
unfoldable pub mbrtowc : ℕ → List ℕ → ℕ → Option (Decoded × ℕ)
unfolding decode_first
mbrtowc zero [] n = none
mbrtowc zero (b ∷ s) n = decode_first b s n
mbrtowc (suc p) s n = decode_loop (suc p) (suc p / 2 ^ 30) 0 s n

-- For a `ps` that is not null.
pub mbrlen : ℕ → List ℕ → ℕ → Option (Decoded × ℕ)
unfolding mbrtowc
mbrlen ps s n = mbrtowc ps s n
