-- ===== src/Fs/Fat/Mirror.antt =====
-- The second copy of a FAT12 table, src/fs/vfat/fat_chains.c.
use mathlib.Core.Path.{subst}
use unstable_os.Base.{
  arith, inl, inr, ok, some, sym, ℕ, ◌%◌, ◌*◌, ◌+◌, ◌-◌, ◌/◌, ◌<◌, ◌^◌, ◌∙◌, ◌≡◌, ◌≤◌,
}
use unstable_os.Fs.Disk.{
  Apart, Image, read16, read16-write16_ne, read16-write16_self, write16, write16-fits,
}
use unstable_os.Fs.Fat.Entries.{fat_set_chain_ok}
use unstable_os.Fs.Fat.{
  FatInfo, Volume, entry_at, fat12, fat_set_chain, merge12, note_freed, set_copies, set_copy,
}

read16-fits : (off x : ℕ) (d : Image) → read16 off d ≡ some x → off + 2 ≤ d.size
unfolding read16
read16-fits off x d h = ground arith

flip : (a b : ℕ) → Apart a 2 b 2 → Apart b 2 a 2
flip a b (inl h) = inr h
flip a b (inr h) = inl h

set12 :
    (fi : FatInfo) (cl i next old : ℕ) (d e : Image)
    → read16 (entry_at fat12 fi i cl) d ≡ some old
    → write16 (entry_at fat12 fi i cl) (merge12 cl old next) d ≡ some e
    → set_copy fat12 fi cl i next d ≡ some (merge12 cl old next, e)
unfolding set_copy
set12 fi cl i next old d e h k = rw (h, set_copy, k)

two_copies :
    (fi : FatInfo) (cl next a b : ℕ) (d e f : Image)
    → set_copy fi.type fi cl 0 next d ≡ some (a, e)
    → set_copy fi.type fi cl 1 a e ≡ some (b, f)
    → set_copies fi cl 2 0 next d ≡ (ok 0, f)
unfolding set_copies
two_copies fi cl next a b d e f h k = rw (h, set_copies, k)

odd_merge : (cl old next : ℕ) → cl % 2 ≡ 1 → merge12 cl old next ≡ old % 16 + (next * 16) % 2 ^ 16
odd_merge cl old next odd = ground arith

all_copies :
    (cl next x y : ℕ) (v : Volume) (e f : Image)
    → v.info.type ≡ fat12
    → v.info.fat_copies ≡ 2
    → next < 2 ^ 12
    → set_copy fat12 v.info cl 0 next v.disk ≡ some (x, e)
    → set_copy fat12 v.info cl 1 x e ≡ some (y, f)
    → set_copies v.info cl v.info.fat_copies 0 (next % 2 ^ 28) v.disk ≡ (ok 0, f)
all_copies cl next x y v e f t two small s1 s2 =
    let m : next % 2 ^ 28 ≡ next = omega arith in
    subst (λ k. set_copies v.info cl k 0 (next % 2 ^ 28) v.disk ≡ (ok 0, f)) (sym two)
      (rw m (
        two_copies v.info cl next x y v.disk e f
          (subst (λ k. set_copy k v.info cl 0 next v.disk ≡ some (x, e)) (sym t) s1)
          (subst (λ k. set_copy k v.info cl 1 x e ≡ some (y, f)) (sym t) s2)))

-- On FAT12 with two copies of the table, setting the entry of an odd cluster to `next` succeeds and
-- gives the first copy that entry, but the second copy the entry `next % 256 * 16 + a % 16`: the
-- variable `next` holds the merged word of the first copy by then. `a` and `b` are the words that hold
-- the entry in the two copies before.
pub fat12_second_copy :
    (cl next a b : ℕ) (v : Volume)
    → v.info.type ≡ fat12
    → v.info.fat_copies ≡ 2
    → cl % 2 ≡ 1
    → 2 ≤ cl
    → cl - 2 ≤ v.info.data_clusters
    → cl < 0xFF0
    → next < 2 ^ 12
    → Apart (entry_at fat12 v.info 0 cl) 2 (entry_at fat12 v.info 1 cl) 2
    → read16 (entry_at fat12 v.info 0 cl) v.disk ≡ some a
    → read16 (entry_at fat12 v.info 1 cl) v.disk ≡ some b
    → (v' : Volume) × (x : ℕ) × (y : ℕ) × (fat_set_chain cl next v ≡ some (ok 0, v'))
      × (read16 (entry_at fat12 v.info 0 cl) v'.disk ≡ some x)
      × (x / 16 ≡ next)
      × (read16 (entry_at fat12 v.info 1 cl) v'.disk ≡ some y)
      × (y / 16 ≡ next % 256 * 16 + a % 16)
fat12_second_copy cl next a b v t two odd lo hi end small apart ra rb =
    let o = entry_at fat12 v.info 0 cl in
    let p = entry_at fat12 v.info 1 cl in
    let x = merge12 cl a next in
    let y = merge12 cl b x in
    let w1 = write16-fits o x v.disk (read16-fits o a v.disk ra) in
    let rb1 : read16 p w1.0 ≡ some b =
      read16-write16_ne p o x v.disk w1.0 (flip o p apart) w1.1 ∙ rb in
    let w2 = write16-fits p y w1.0 (read16-fits p b w1.0 rb1) in
    let s1 = set12 v.info cl 0 next a v.disk w1.0 ra w1.1 in
    let s2 = set12 v.info cl 1 x b w1.0 w2.0 rb1 w2.1 in
    let c : set_copies v.info cl v.info.fat_copies 0 (next % 2 ^ 28) v.disk ≡ (ok 0, w2.0) =
      all_copies cl next x y v w1.0 w2.0 t two small s1 s2 in
    (
      record { info = note_freed cl (next % 2 ^ 28) v.info; disk = w2.0 },
      x % 2 ^ 16,
      y % 2 ^ 16,
      fat_set_chain_ok cl next v w2.0 lo hi (rw t end) c,
      read16-write16_ne o p y w1.0 w2.0 apart w2.1 ∙ read16-write16_self o x v.disk w1.0 w1.1,
      omega (arith, odd_merge cl a next odd),
      read16-write16_self p y w1.0 w2.0 w2.1,
      omega (arith, odd_merge cl a next odd, odd_merge cl b x odd),
    )
