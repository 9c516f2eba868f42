-- ===== src/Fs/Inodes.antt =====
-- The table of inodes, src/fs/inode.c. `kernel_inode_lock` is held over each call, so a call is one step.
-- A superblock is named by its address, 0 for NULL. `open_dev` and `open_pipe` are parameters. `open_dev`
-- gives its result, the slot of the inode that its argument points at afterwards, and the table: a
-- `repl_open` of a device, such as ptmx_repl_open of src/kernel_tty_io.c, puts another inode in
-- another slot. `open_pipe` gives the error if there is one.
pub mod Slots
pub mod Keys
pub mod Added
pub mod Again
pub mod Lookup
mod Tests
use unstable_os.Base.{
  Bool, Errno, List, Option, Outcome, [], err, false, flag, get_or, if◌then◌else◌, none, not, ok,
  set, some, true, ℕ, ◌!=◌, ◌%◌, ◌&&◌, ◌+◌, ◌-◌, ◌==◌, ◌^◌, ◌∷◌,
}

-- What the type bits of `mode` say.
pub data Kind : Type 0 where
  is_file is_fifo is_device : Kind

-- The fields of `inode_t` that the table looks at.
pub record Inode : Type 0 where
  pub instances : ℕ
  pub backing_superblock : ℕ
  pub id : ℕ
  pub kind : Kind
  pub device : ℕ

abbrev pub Slots : Type 0
Slots = List (Option Inode)

-- `kernel_inodes`, and `instances` of each superblock.
pub record Inodes : Type 0 where
  pub kernel_inodes : Slots
  pub sb_instances : ℕ → ℕ

pub record Opens : Type 0 where
  pub open_dev : ℕ → ℕ → Inodes → Outcome × ℕ × Inodes
  pub open_pipe : ℕ → Inode → Option Errno

-- A slot holds the live inode with this superblock and id.
unfoldable pub is_at : ℕ → ℕ → Option Inode → Bool
is_at sb id none = false
is_at sb id (some i) = i.instances != 0 && (i.backing_superblock == sb && i.id == id)

unfoldable pub is_free : Option Inode → Bool
is_free none = true
is_free (some i) = i.instances == 0

-- The first slot from the place `k` on that passes a test.
unfoldable pub first_slot : (Option Inode → Bool) → ℕ → Slots → Option ℕ
first_slot p k [] = none
first_slot p k (x ∷ xs) = let rest = first_slot p (k + 1) xs in if p x then some k else rest

-- `__get_inode`
unfoldable pub get_inode : ℕ → ℕ → Slots → Option ℕ
get_inode sb id xs = first_slot (is_at sb id) 0 xs

abbrev pub is_dev : Kind → Bool
is_dev is_device = true
is_dev _ = false

abbrev pub is_pipe : Kind → Bool
is_pipe is_fifo = true
is_pipe _ = false

-- `__get_inode_raw_device`
unfoldable pub is_raw : ℕ → Option Inode → Bool
is_raw dev none = false
is_raw dev (some i) = i.instances != 0 && (is_dev i.kind && i.device == dev)

unfoldable pub get_inode_raw_device : ℕ → Slots → Option ℕ
get_inode_raw_device dev xs = first_slot (is_raw dev) 0 xs

-- `get_free_inode` without the cleared memory; `none` is its panic.
unfoldable pub get_free_inode : Slots → Option ℕ
get_free_inode xs = first_slot is_free 0 xs

abbrev pub one_more : ℕ → ℕ
one_more n = (n + 1) % 2 ^ 32

abbrev pub one_less : ℕ → ℕ
one_less n = (n + (2 ^ 32 - 1)) % 2 ^ 32

-- `instances` of a superblock, unless it is NULL.
abbrev pub count_superblock : (ℕ → ℕ) → ℕ → Inodes → Inodes
count_superblock f sb s = record s {
  sb_instances = λ b. if sb != 0 && b == sb then f (s.sb_instances b) else s.sb_instances b;
}

abbrev pub put : ℕ → Inode → Inodes → Inodes
put k i s = record s { kernel_inodes = set s.kernel_inodes k (some i) }

-- `O_PATH`
abbrev pub o_path : ℕ → Bool
o_path flags = flag 14 flags

-- The inode of a slot; an empty slot has one that is not used.
abbrev pub inode_at : ℕ → Inodes → Inode
inode_at k s = elim (get_or s.kernel_inodes k none) [
  | some i ↦ i
  | none ↦ record { instances = 0; backing_superblock = 0; id = 0; kind = is_file; device = 0 }
]

-- The part of `register_inode` behind the open of a device that is in the table already. Whether the inode is
-- a pipe is what the argument says.
unfoldable pub open_pipe_again : Opens → Inode → ℕ → ℕ → Inodes → Outcome × Option ℕ × Inodes
open_pipe_again o inode flags slot s =
    let new = inode_at slot s in
    if is_pipe inode.kind
    then elim (o.open_pipe flags new) [
      | none ↦ (ok 0, some slot, s)
      | some e ↦ (err e, none, put slot (record new { instances = one_less new.instances }) s)
    ]
    else (ok 0, some slot, s)

-- The inode is in the table already, in the slot `k`. The result of `open_dev` is not looked at.
unfoldable pub register_again : Opens → Inode → ℕ → ℕ → Inodes → Outcome × Option ℕ × Inodes
unfolding open_pipe_again
register_again o inode flags k s =
    let old = inode_at k s in
    let counted = put k (record old { instances = one_more old.instances }) s in
    if is_dev inode.kind && not (o_path flags)
    then (let (status, slot, s') = o.open_dev flags k counted in
        open_pipe_again o inode flags slot s')
    else open_pipe_again o inode flags k counted

-- A slot is filled. The result of `open_pipe` is not looked at.
unfoldable pub register_new : Opens → Inode → ℕ → ℕ → Inodes → Outcome × Option ℕ × Inodes
register_new o inode flags k s =
    let filled =
      put k (record inode { instances = 1 })
        (count_superblock one_more inode.backing_superblock s) in
    if is_dev inode.kind && not (o_path flags)
    then (let (status, slot, s') = o.open_dev flags k filled in
        let new = inode_at slot s' in
        elim status [
          | ok n ↦ (ok n, some slot, s')
          | err e ↦ (
            err e,
            none,
            put slot (record new { instances = 0 })
                (count_superblock one_less new.backing_superblock s'),
          )
        ])
    else (ok 0, some k, filled)

-- `register_inode` for a given inode; `none` is the panic when no slot is free.
unfoldable pub register_inode : Opens → Inode → ℕ → Inodes → Option (Outcome × Option ℕ × Inodes)
register_inode o inode flags s =
    elim (get_inode inode.backing_superblock inode.id s.kernel_inodes) [
      | some k ↦ some (register_again o inode flags k s)
      | none ↦ elim (get_free_inode s.kernel_inodes) [
        | none ↦ none
        | some k ↦ some (register_new o inode flags k s)
      ]
    ]
