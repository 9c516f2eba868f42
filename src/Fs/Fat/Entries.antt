-- ===== src/Fs/Fat/Entries.antt =====
-- Setting and reading the entries of a FAT16 table with any number of copies,
-- src/fs/vfat/fat_chains.c.
use mathlib.Core.Path.{subst}
use unstable_os.Base.{
  Bool, Bool-cases, Option-cases, ap, arith, false, if◌then◌else◌, inl, inr, leb, ltb, none, ok,
  refl, some, suc, sym, true, zero, ℕ, ◌%◌, ◌*◌, ◌+◌, ◌-◌, ◌<◌, ◌==◌, ◌^◌, ◌∙◌, ◌≡◌, ◌≢◌, ◌≤◌,
}
use unstable_os.Fs.Disk.{
  Apart, Image, read16, read16-write16_ne, read16-write16_self, size-write16, write16, write16-fits,
}
use unstable_os.Fs.Fat.{
  FatInfo, FatType, Volume, cluster_end, decode, entry_at, fat12, fat16, fat32, fat_next_in_chain,
  fat_set_chain, minus_one, note_freed, read_entry, set_copies, set_copy,
}

-- The guards of `fat_set_chain` pass.
pub fat_set_chain_ok :
    (cl next : ℕ) (v : Volume) (d : Image)
    → 2 ≤ cl
    → cl - 2 ≤ v.info.data_clusters
    → cl < cluster_end v.info.type
    → set_copies v.info cl v.info.fat_copies 0 (next % 2 ^ 28) v.disk ≡ (ok 0, d)
    → fat_set_chain cl next v
      ≡ some (ok 0, record { info = note_freed cl (next % 2 ^ 28) v.info; disk = d })
unfolding fat_set_chain
fat_set_chain_ok cl next v d lo hi end h =
    let a : ltb cl 2 ≡ false = ground arith in
    let b : ltb v.info.data_clusters (cl - 2) ≡ false = ground arith in
    let c : leb (cluster_end v.info.type) cl ≡ false = ground arith in rw (a, b, c, h)

-- A FAT16 volume whose copies of the table lie on the disk, one behind the other, each with an entry for
-- every cluster that the functions accept.
pub record Layout (v : Volume) : Type 0 where
  pub type : v.info.type ≡ fat16
  pub copies : 0 < v.info.fat_copies
  pub table : 2 * (v.info.data_clusters + 3) ≤ v.info.sectors_per_fat * v.info.bytes_per_sector
  pub on_disk :
      (v.info.fat_start_sector + v.info.fat_copies * v.info.sectors_per_fat)
        * v.info.bytes_per_sector
      ≤ v.disk.size
  pub small : v.disk.size < 2 ^ 32

-- Copy `i` of the table ends where the next begins.
copy_ends : (s c p b i : ℕ) → i < c → (s + i * p) * b + p * b ≤ (s + c * p) * b
copy_ends s c p b i h = grind arith

copies_order : (s p b i : ℕ) → 0 < i → s * b + p * b ≤ (s + i * p) * b
copies_order s p b zero h = absurd (omega arith)
copies_order s p b (suc j) h = omega arith

place_arith :
    (x p t dc cl size : ℕ)
    → x + p ≤ t
    → t ≤ size
    → size < 2 ^ 32
    → 2 * (dc + 3) ≤ p
    → cl ≤ dc + 2
    → ((x % 2 ^ 32 + 2 * cl) % 2 ^ 32 ≡ x + 2 * cl) × (x + 2 * cl + 2 ≤ size)
place_arith x p t dc cl size a b c d e = omega arith

set16 :
    (fi : FatInfo) (cl i next : ℕ) (d e : Image)
    → fi.type ≡ fat16
    → write16 (entry_at fat16 fi i cl) next d ≡ some e
    → set_copy fi.type fi cl i next d ≡ some (next, e)
unfolding set_copy
set16 fi cl i next d e t h = subst (λ k. set_copy k fi cl i next d ≡ some (next, e)) (sym t) (rw h)

set_copies_step :
    (fi : FatInfo) (cl left i next next' : ℕ) (d e : Image)
    → set_copy fi.type fi cl i next d ≡ some (next', e)
    → set_copies fi cl (suc left) i next d ≡ set_copies fi cl left (i + 1) next' e
unfolding set_copies
set_copies_step fi cl left i next next' d e h = rw (h, set_copies)

next16 :
    (cl x : ℕ) (v : Volume)
    → v.info.type ≡ fat16
    → 2 ≤ cl
    → cl ≤ v.info.data_clusters + 2
    → cl < 0xFFF0
    → read16 (entry_at fat16 v.info 0 cl) v.disk ≡ some x
    → fat_next_in_chain cl v ≡ some (decode fat16 cl x)
unfolding fat_next_in_chain
next16 cl x v t lo hi end h =
    let a : ltb cl 2 ≡ false = ground arith in
    let b : ltb v.info.data_clusters (cl - 2) ≡ false = ground arith in
    let c : leb 0xFFF0 cl ≡ false = ground arith in
    rw (a, b)
      (subst
        (λ k.
          (if leb (cluster_end k) cl
            then none
            else elim (read_entry k (entry_at k v.info 0 cl) v.disk) [
              | none ↦ some minus_one
              | some x ↦ some (decode k cl x)
            ])
          ≡ some (decode fat16 cl x))
        (sym t) (rw (c, h)))

entry_at_freed :
    (t : FatType) (c cl : ℕ) (fi : FatInfo)
    → entry_at t (record fi { last_free_cluster = cl }) 0 c ≡ entry_at t fi 0 c
entry_at_freed fat12 c cl fi = refl
entry_at_freed fat16 c cl fi = refl
entry_at_freed fat32 c cl fi = refl

next_if :
    (c cl : ℕ) (freed : Bool) (fi : FatInfo) (d : Image)
    → fat_next_in_chain c
        (record { info = if freed then record fi { last_free_cluster = cl } else fi; disk = d })
      ≡ fat_next_in_chain c (record { info = fi; disk = d })
unfolding fat_next_in_chain
next_if c cl true fi d = rw (entry_at_freed fi.type c cl fi)
next_if c cl false fi d = refl

Layout-freed :
    (cl n : ℕ) (v : Volume) (d : Image)
    → Layout v
    → d.size ≡ v.disk.size
    → Layout (record { info = note_freed cl n v.info; disk = d })
Layout-freed cl n v d l same = elim (Bool-cases (n == 0)) [
  | inl e ↦ rw e (record {
    type = l.type;
    copies = l.copies;
    table = l.table;
    on_disk = rw same l.on_disk;
    small = rw same l.small;
  })
  | inr e ↦ rw e (record {
    type = l.type;
    copies = l.copies;
    table = l.table;
    on_disk = rw same l.on_disk;
    small = rw same l.small;
  })
]

-- Setting the entry of `cl`, on a volume with a layout.
module _ (v : Volume) (l : Layout v) (cl : ℕ) (in_range : cl ≤ v.info.data_clusters + 2) where
  open v.info use {
    fat_start_sector as s, fat_copies as c, sectors_per_fat as p, bytes_per_sector as b,
  }

  entry_place :
      (i : ℕ)
      → i < c
      → (entry_at fat16 v.info i cl ≡ (s + i * p) * b + 2 * cl)
        × ((s + i * p) * b + 2 * cl + 2 ≤ v.disk.size)
  entry_place i h =
      place_arith ((s + i * p) * b) (p * b) ((s + c * p) * b) v.info.data_clusters cl v.disk.size
        (copy_ends s c p b i h) l.on_disk l.small l.table in_range

  -- The write to copy `i`.
  write_copy :
      (i next : ℕ) (d : Image)
      → i < c
      → d.size ≡ v.disk.size
      → (e : Image) × (write16 (entry_at fat16 v.info i cl) next d ≡ some e)
        × (e.size ≡ v.disk.size)
  write_copy i next d h same =
      let place = entry_place i h in
      let w = write16-fits (entry_at fat16 v.info i cl) next d (omega arith) in
      (w.0, w.1, size-write16 _ next d w.0 w.1 ∙ same)

  -- The copies behind the first leave the first alone.
  later_copies :
      (left i next : ℕ) (d : Image)
      → d.size ≡ v.disk.size
      → 0 < i
      → i + left ≡ c
      → (e : Image) × (set_copies v.info cl left i next d ≡ (ok 0, e))
        × (e.size ≡ v.disk.size)
        × ((a : ℕ) → a + 2 ≤ s * b + p * b → read16 a e ≡ read16 a d)
  later_copies zero i next d same pos h = (d, unfold set_copies in refl, same, λ a k. refl)
  later_copies (suc left) i next d same pos h =
      let w = write_copy i next d (omega arith) same in
      let r = later_copies left (i + 1) next w.0 w.2 (omega arith) (omega arith) in
      let place = entry_place i (omega arith) in
      let order = copies_order s p b i pos in
      (
        r.0,
        set_copies_step v.info cl left i next next d w.0 (set16 v.info cl i next d w.0 l.type w.1)
            ∙ r.1,
        r.2,
        λ a k.
            r.3 a k
            ∙ read16-write16_ne a (entry_at fat16 v.info i cl) next d w.0 (inl (omega arith)) w.1,
      )

  -- All copies: the first has the entry, and any other place in the first copy is as it was.
  all_copies :
      (left next : ℕ)
      → c ≡ suc left
      → (e : Image) × (set_copies v.info cl (suc left) 0 next v.disk ≡ (ok 0, e))
        × (e.size ≡ v.disk.size)
        × (read16 (entry_at fat16 v.info 0 cl) e ≡ some (next % 2 ^ 16))
        × ((a : ℕ)
            → a + 2 ≤ s * b + p * b
            → Apart a 2 (entry_at fat16 v.info 0 cl) 2
            → read16 a e ≡ read16 a v.disk)
  all_copies left next h =
      let w = write_copy 0 next v.disk (omega arith) refl in
      let r = later_copies left 1 next w.0 w.2 (omega arith) (omega arith) in
      let place = entry_place 0 (omega arith) in
      let o = entry_at fat16 v.info 0 cl in
      let in_first : o + 2 ≤ s * b + p * b = omega (arith, l.table) in
      (
        r.0,
        set_copies_step v.info cl left 0 next next v.disk w.0
              (set16 v.info cl 0 next v.disk w.0 l.type w.1)
            ∙ r.1,
        r.2,
        r.3 o in_first ∙ read16-write16_self o next v.disk w.0 w.1,
        λ a k apart. r.3 a k ∙ read16-write16_ne a o next v.disk w.0 apart w.1,
      )

data_clusters_freed :
    (cl : ℕ) (freed : Bool) (fi : FatInfo)
    → (if freed then record fi { last_free_cluster = cl } else fi).data_clusters ≡ fi.data_clusters
data_clusters_freed cl true fi = refl
data_clusters_freed cl false fi = refl

read16-some : (off : ℕ) (d : Image) → off + 2 ≤ d.size → (x : ℕ) × (read16 off d ≡ some x)
unfolding read16
read16-some off d h = elim (Option-cases (read16 off d)) [
  | inl e ↦ absurd (ground arith)
  | inr e ↦ e
]

-- A cluster whose entry the functions accept.
pub record InRange (cl : ℕ) (v : Volume) : Type 0 where
  pub low : 2 ≤ cl
  pub high : cl ≤ v.info.data_clusters + 2
  pub not_end : cl < 0xFFF0

-- Entries of different clusters share no byte, and lie in the first copy.
entries-Apart :
    (v : Volume) (l : Layout v) (cl o : ℕ)
    → InRange cl v
    → InRange o v
    → o ≢ cl
    → Apart (entry_at fat16 v.info 0 o) 2 (entry_at fat16 v.info 0 cl) 2
entries-Apart v l cl o rc ro ne =
    let a = entry_place v l cl rc.high 0 l.copies in
    let b = entry_place v l o ro.high 0 l.copies in grind arith

-- What `fat_set_chain` leaves, and what the entries then read as.
pub record Set16 (cl next : ℕ) (v w : Volume) : Type 0 where
  pub layout : Layout w
  pub clusters : w.info.data_clusters ≡ v.info.data_clusters
  pub entry : fat_next_in_chain cl w ≡ some (decode fat16 cl (next % 2 ^ 16))
  pub others : (o : ℕ) → InRange o v → o ≢ cl → fat_next_in_chain o w ≡ fat_next_in_chain o v

module _ (v : Volume) (l : Layout v) (cl : ℕ) (r : InRange cl v) (next left : ℕ) where
  Set16-all :
      v.info.fat_copies ≡ suc left
      → (w : Volume) × (fat_set_chain cl next v ≡ some (ok 0, w)) × Set16 cl next v w
  Set16-all h =
      let n = next % 2 ^ 28 in
      let c = all_copies v l cl r.high left n h in
      let e = c.0 in
      let o = entry_place v l cl r.high 0 l.copies in
      let done : set_copies v.info cl v.info.fat_copies 0 n v.disk ≡ (ok 0, e) =
        subst (λ k. set_copies v.info cl k 0 n v.disk ≡ (ok 0, e)) (sym h) c.1 in
      let low : cl - 2 ≤ v.info.data_clusters = omega (arith, r.high) in
      let end : cl < cluster_end v.info.type =
        subst (λ t. cl < cluster_end t) (sym l.type) r.not_end in
      let m : n % 2 ^ 16 ≡ next % 2 ^ 16 = omega arith in
      (
        record { info = note_freed cl n v.info; disk = e },
        fat_set_chain_ok cl next v e r.low low end done,
        record {
          layout = Layout-freed cl n v e l c.2;
          clusters = data_clusters_freed cl (n == 0) v.info;
          entry =
              next_if cl cl (n == 0) v.info e
              ∙ next16 cl (n % 2 ^ 16) (record v { disk = e }) l.type r.low r.high r.not_end c.3
              ∙ ap (λ x. some (decode fat16 cl x)) m;
          others = λ q rq ne.
              let place = entry_place v l q rq.high 0 l.copies in
              let x = read16-some (entry_at fat16 v.info 0 q) v.disk (omega arith) in
              let apart = entries-Apart v l cl q r rq ne in
              let same = c.4 (entry_at fat16 v.info 0 q) (omega (arith, l.table, rq.high)) apart in
              next_if q cl (n == 0) v.info e
              ∙ next16 q x.0 (record v { disk = e }) l.type rq.low rq.high rq.not_end (same ∙ x.1)
              ∙ sym (next16 q x.0 v l.type rq.low rq.high rq.not_end x.1);
        },
      )

pub set16_lem :
    (v : Volume) (l : Layout v) (cl next : ℕ)
    → InRange cl v
    → (w : Volume) × (fat_set_chain cl next v ≡ some (ok 0, w)) × Set16 cl next v w
set16_lem v l cl next r = Set16-all v l cl r next (v.info.fat_copies - 1) (omega (arith, l.copies))

-- On a FAT16 volume with any number of copies of the table, setting the entry of a cluster to a link
-- succeeds, reading it back gives that link, and the entry of any other cluster reads as before.
pub fat16_set_then_next :
    (v : Volume) (cl next other : ℕ)
    → Layout v
    → InRange cl v
    → InRange other v
    → other ≢ cl
    → next ≤ 0xFFF0
    → (w : Volume) × (fat_set_chain cl next v ≡ some (ok 0, w))
      × (fat_next_in_chain cl w ≡ some next)
      × (fat_next_in_chain other w ≡ fat_next_in_chain other v)
      × Layout w
fat16_set_then_next v cl next other l r ro ne small =
    let s = set16_lem v l cl next r in
    let d : decode fat16 cl (next % 2 ^ 16) ≡ next = ground arith in
    (s.0, s.1, s.2.entry ∙ ap some d, s.2.others other ro ne, s.2.layout)
