-- ===== src/Fs/Inodes/Tests.antt =====
-- A table of three slots with one inode in use.
use unstable_os.Base.{[], arith, none, ok, refl, some, suc, zero, ℕ, ◌-◌, ◌<◌, ◌^◌, ◌∷◌}
use unstable_os.Fs.Inodes.{
  Inode, Inodes, Opens, first_slot, get_free_inode, get_inode, inode_at, is_at, is_device, is_file,
  is_free, register_inode, register_new,
}
use unstable_os.Fs.Inodes.Keys.{IsPlain}
use unstable_os.Fs.Inodes.Lookup.{IsRegistered, register_inode-IsRegistered}

abbrev notes : Inode
notes = record { instances = 2; backing_superblock = 4096; id = 12; kind = is_file; device = 0 }

abbrev terminal : Inode
terminal = record notes { id = 13; kind = is_device; device = 5 }

abbrev no_trouble : Opens
no_trouble = record { open_dev = λ flags k s. (ok 0, k, s); open_pipe = λ flags i. none }

abbrev inodes : Inodes
inodes = record { kernel_inodes = some notes ∷ none ∷ none ∷ []; sb_instances = λ sb. 1 }

no_trouble-IsPlain : IsPlain no_trouble
unfolding IsPlain
no_trouble-IsPlain flags k s = (refl, refl)

few : (k : ℕ) → (inode_at k inodes).instances < 2 ^ 32 - 1
few zero = omega arith
few (suc zero) = omega arith
few (suc (suc zero)) = omega arith
few (suc (suc (suc k))) = omega arith

register_inode-IsRegistered_example :
    IsRegistered terminal inodes (register_new no_trouble terminal 0 1 inodes)
unfolding register_inode get_inode get_free_inode first_slot is_at is_free
register_inode-IsRegistered_example =
    register_inode-IsRegistered no_trouble no_trouble-IsPlain terminal 0 inodes _ few refl
