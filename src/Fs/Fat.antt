-- ===== src/Fs/Fat.antt =====
-- The file allocation table of src/fs/vfat/fat_chains.c: reading and writing the entry of a cluster,
-- finding a free cluster, freeing a chain. `size_t` is a 32-bit word and `off_t` one of 64 bits. A
-- failed `kassert` is a panic. Signals are held off by every function, and are not part of the state.
pub mod FreeCluster
pub mod Entries
pub mod Chains
pub mod Mirror
mod Tests
use mathlib.Core.Option
use unstable_os.Base.{
  Option, Outcome, einval, eio, err, false, if◌then◌else◌, leb, ltb, none, ok, some, suc, true,
  zero, ℕ, ◌!=◌, ◌%◌, ◌&&◌, ◌*◌, ◌+◌, ◌-◌, ◌/◌, ◌==◌, ◌^◌, ◌||◌,
}
use unstable_os.Fs.Disk.{Image, read16, read32, write16, write32}

pub data FatType : Type 0 where
  fat12 fat16 fat32 : FatType

-- The fields of `struct fat_info` that fat_chains.c uses.
pub record FatInfo : Type 0 where
  pub type : FatType
  pub bytes_per_sector : ℕ
  pub data_clusters : ℕ
  pub last_free_cluster : ℕ
  pub fat_start_sector : ℕ
  pub sectors_per_fat : ℕ
  pub fat_copies : ℕ

pub record Volume : Type 0 where
  pub info : FatInfo
  pub disk : Image

-- FAT_CLUSTER_END_FAT12 and its kin, the low ends of the range of end marks.
abbrev pub cluster_end : FatType → ℕ
cluster_end fat12 = 0xFF0
cluster_end fat16 = 0xFFF0
cluster_end fat32 = 0x0FFFFFF0

-- `(size_t)-1`, the mark of an error.
abbrev pub minus_one : ℕ
minus_one = 2 ^ 32 - 1

-- Where copy `i` of the table begins.
abbrev pub copy_start : FatInfo → ℕ → ℕ
copy_start fi i = ((fi.fat_start_sector + i * fi.sectors_per_fat) * fi.bytes_per_sector) % 2 ^ 32

-- Where copy `i` has the entry of cluster `cl`. On FAT12 the sum is one of `off_t`.
abbrev pub entry_at : FatType → FatInfo → ℕ → ℕ → ℕ
entry_at fat12 fi i cl = copy_start fi i + (cl * 3) % 2 ^ 32 / 2
entry_at fat16 fi i cl = (copy_start fi i + 2 * cl) % 2 ^ 32
entry_at fat32 fi i cl = (copy_start fi i + 4 * cl) % 2 ^ 32

-- An end mark loses its low bits, so that it is not taken for an error.
abbrev pub clamp_end : FatType → ℕ → ℕ
clamp_end t next = if ltb (cluster_end t) next then next - next % 16 else next

-- What the bytes of an entry say: `next >>= 4`, `next &= 0x0FFF`, `next_32 &= ~0xF0000000`.
abbrev pub decode : FatType → ℕ → ℕ → ℕ
decode fat12 cl x = clamp_end fat12 (if cl % 2 == 0 then x % 0x1000 else x / 16)
decode fat16 cl x = clamp_end fat16 x
decode fat32 cl x = clamp_end fat32 (x % 2 ^ 28)

abbrev pub read_entry : FatType → ℕ → Image → Option ℕ
read_entry fat12 = read16
read_entry fat16 = read16
read_entry fat32 = read32

-- `none` is a panic.
unfoldable pub fat_next_in_chain : ℕ → Volume → Option ℕ
unfolding read32
fat_next_in_chain cl v =
    if ltb cl 2
    then none
    else if ltb v.info.data_clusters (cl - 2)
    then some minus_one
    else if leb (cluster_end v.info.type) cl
    then none
    else elim (read_entry v.info.type (entry_at v.info.type v.info 0 cl) v.disk) [
      | none ↦ some minus_one
      | some x ↦ some (decode v.info.type cl x)
    ]

-- `old` with the entry of `cl` replaced, on FAT12.
abbrev pub merge12 : ℕ → ℕ → ℕ → ℕ
merge12 cl old next =
    if cl % 2 == 0 then old / 0x1000 * 0x1000 + next % 0x1000 else old % 16 + (next * 16) % 2 ^ 16

-- One round of the loop of `fat_set_chain`, for copy `i`: the new value of the variable `next`, which
-- FAT12 sets to the merged word, and the disk. `none` is an error of the transfer.
unfoldable pub set_copy : FatType → FatInfo → ℕ → ℕ → ℕ → Image → Option (ℕ × Image)
unfolding write32
set_copy fat12 fi cl i next d = elim (read16 (entry_at fat12 fi i cl) d) [
  | none ↦ none
  | some old ↦
      Option.map (λ d'. (merge12 cl old next, d'))
        (write16 (entry_at fat12 fi i cl) (merge12 cl old next) d)
]
set_copy fat16 fi cl i next d =
    Option.map (λ d'. (next, d')) (write16 (entry_at fat16 fi i cl) next d)
set_copy fat32 fi cl i next d =
    Option.map (λ d'. (next, d')) (write32 (entry_at fat32 fi i cl) next d)

-- The loop over the copies: `left` are still to come. An error leaves what has been written.
unfoldable pub set_copies : FatInfo → ℕ → ℕ → ℕ → ℕ → Image → Outcome × Image
unfolding set_copy
set_copies fi cl zero i next d = (ok 0, d)
set_copies fi cl (suc left) i next d = elim (set_copy fi.type fi cl i next d) [
  | none ↦ (err eio, d)
  | some (next', d') ↦ set_copies fi cl left (i + 1) next' d'
]

-- `if (next == 0) fi->last_free_cluster = last_cluster;`
abbrev pub note_freed : ℕ → ℕ → FatInfo → FatInfo
note_freed cl next fi = if next == 0 then record fi { last_free_cluster = cl } else fi

unfoldable pub fat_set_chain : ℕ → ℕ → Volume → Option (Outcome × Volume)
unfolding set_copies
fat_set_chain cl next v =
    if ltb cl 2
    then none
    else if ltb v.info.data_clusters (cl - 2)
    then some (err einval, v)
    else if leb (cluster_end v.info.type) cl && v.info.fat_copies != 0
    then none
    else (let out = set_copies v.info cl v.info.fat_copies 0 (next % 2 ^ 28) v.disk in
        some (out.0, record { info = note_freed cl (next % 2 ^ 28) v.info; disk = out.1 }))

-- What the search for a free cluster returns: the cluster, -1 and 0. A panic has no value.
pub data Search : Type 0 where
  found : ℕ → Search
  io_error none_free panicked : Search

-- One of the two loops of `fat_get_free_cluster`, over `left` clusters from `cl` on.
unfoldable pub scan : ℕ → ℕ → Volume → Search
unfolding fat_next_in_chain
scan zero cl v = none_free
scan (suc left) cl v =
    let rest = scan left (cl + 1) v in
    elim (fat_next_in_chain cl v) [
      | none ↦ panicked
      | some next ↦
          if next == minus_one then io_error else if next % 2 ^ 28 == 0 then found cl else rest
    ]

abbrev pub scan_start : FatInfo → ℕ
scan_start fi =
    if ltb fi.data_clusters fi.last_free_cluster || ltb fi.last_free_cluster 2
    then 2
    else fi.last_free_cluster

abbrev pub with_last : ℕ → Volume → Volume
with_last cl v = record v { info = record v.info { last_free_cluster = cl } }

-- The second loop, which runs where the first finds nothing.
abbrev pub or_scan : Search → Search → Search
or_scan none_free s = s
or_scan r s = r

unfoldable pub search_free : Volume → Search
unfolding scan
search_free v = or_scan (scan (v.info.data_clusters - start) start v) (scan (start - 2) 2 v)
  where
    start : ℕ
    start = scan_start v.info

unfoldable pub fat_get_free_cluster : Volume → Search × Volume
unfolding search_free
fat_get_free_cluster v =
    let r = search_free v in
    (r, elim r [ found cl ↦ with_last cl v | _ ↦ with_last (scan_start v.info) v ])

-- The loop of `fat_free_chain`. `none` is a panic, or no more fuel.
unfoldable pub free_loop : ℕ → ℕ → Volume → Option (Outcome × Volume)
unfolding fat_next_in_chain fat_set_chain
free_loop zero cl v = none
free_loop (suc fuel) cl v = elim (ltb cl (cluster_end v.info.type)) [
  | false ↦ some (ok 0, v)
  | true ↦ elim (fat_next_in_chain cl v) [
    | none ↦ none
    | some next ↦ elim (fat_set_chain cl 0 v) [
      | none ↦ none
      | some (err e, v') ↦ some (err eio, v')
      | some (ok r, v') ↦ elim (next == 0) [
        | true ↦ some (ok 0, v')
        | false ↦ elim (ltb next 2) [ true ↦ some (err eio, v') | false ↦ free_loop fuel next v' ]
      ]
    ]
  ]
]

-- The fuel bounds the clusters that are freed.
unfoldable pub fat_free_chain : ℕ → ℕ → Volume → Option (Outcome × Volume)
unfolding free_loop
fat_free_chain fuel first v = free_loop fuel first v

unfoldable pub fat_end_chain : ℕ → ℕ → Volume → Option (Outcome × Volume)
unfolding fat_next_in_chain fat_set_chain fat_free_chain
fat_end_chain fuel last v = elim (fat_next_in_chain last v) [
  | none ↦ none
  | some cl ↦
      if ltb cl 2 || cl == minus_one
      then some (err eio, v)
      else elim (fat_set_chain last 0xFFFFFFFF v) [
        | none ↦ none
        | some (err e, v') ↦ some (err eio, v')
        | some (ok r, v') ↦ fat_free_chain fuel cl v'
      ]
]
