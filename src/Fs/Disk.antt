-- ===== src/Fs/Disk.antt =====
-- The bytes of the volume behind `sb->fd`, as `pread_file` and `pwrite_file` show them: a transfer that
-- would run past the end is short, which the callers take for an error. Words are little endian.
use mathlib.Core.Option
use unstable_os.Base.{
  Option, Option-cases, arith, if◌then◌else◌, inl, inr, leb, none, some, ℕ, ◌%◌, ◌*◌, ◌+◌, ◌/◌,
  ◌==◌, ◌^◌, ◌≡◌, ◌≤◌, ◌⊎◌,
}

pub record Image : Type 0 where
  pub bytes : ℕ → ℕ
  pub size : ℕ

unfoldable pub read16 : ℕ → Image → Option ℕ
read16 off d =
    if leb (off + 2) d.size
    then some (d.bytes off % 256 + 256 * (d.bytes (off + 1) % 256))
    else none

unfoldable pub write16 : ℕ → ℕ → Image → Option Image
write16 off x d =
    if leb (off + 2) d.size
    then some (record d {
      bytes = λ a. if a == off then x % 256 else if a == off + 1 then x / 256 % 256 else d.bytes a;
    })
    else none

unfoldable pub read32 : ℕ → Image → Option ℕ
unfolding read16
read32 off d = elim (read16 (off + 2) d) [
  | none ↦ none
  | some high ↦ Option.map (λ low. low + 2 ^ 16 * high) (read16 off d)
]

unfoldable pub write32 : ℕ → ℕ → Image → Option Image
unfolding write16
write32 off x d = elim (write16 (off + 2) (x / 2 ^ 16) d) [
  | none ↦ none
  | some d' ↦ write16 off x d'
]

-- The two stretches of bytes have none in common.
abbrev pub Apart : ℕ → ℕ → ℕ → ℕ → Type 0
Apart a m b n = (a + m ≤ b) ⊎ (b + n ≤ a)

pub read16-write16_self :
    (off x : ℕ) (d e : Image) → write16 off x d ≡ some e → read16 off e ≡ some (x % 2 ^ 16)
unfolding read16 write16
read16-write16_self off x d e h = ground arith

pub read16-write16_ne :
    (a b x : ℕ) (d e : Image) → Apart a 2 b 2 → write16 b x d ≡ some e → read16 a e ≡ read16 a d
unfolding read16 write16
read16-write16_ne a b x d e apart h = ground arith

pub size-write16 : (off x : ℕ) (d e : Image) → write16 off x d ≡ some e → e.size ≡ d.size
unfolding write16
size-write16 off x d e h = ground arith

pub write16-fits :
    (off x : ℕ) (d : Image) → off + 2 ≤ d.size → (e : Image) × (write16 off x d ≡ some e)
unfolding write16
write16-fits off x d h = elim (Option-cases (write16 off x d)) [
  | inl e ↦ absurd (ground arith)
  | inr e ↦ e
]
