-- ===== src/Fs/Inodes/Keys.antt =====
-- Writes to the table of inodes and the lookups of superblocks and ids, src/fs/inode.c.
use unstable_os.Base.{
  Bool, List, Option, Outcome, [], ap, arith, false, get_or, get_or-set_self, if◌then◌else◌, length,
  none, refl, set, some, suc, sym, true, zero, ℕ, ◌&&◌, ◌<◌, ◌==◌, ◌∙◌, ◌∷◌, ◌≡◌, ◌≢◌,
}
use unstable_os.Fs.Inodes.Slots.{first_slot-unseen}
use unstable_os.Fs.Inodes.{Inode, Inodes, Opens, Slots, get_inode, inode_at, is_at, is_free}

-- Another superblock or another id.
abbrev pub IsOther : ℕ → ℕ → Inode → Type 0
IsOther sb id i = (i.backing_superblock == sb && i.id == id) ≡ false

-- An inode is not found under another key.
not_at_other : (sb id : ℕ) (i : Inode) → IsOther sb id i → is_at sb id (some i) ≡ false
unfolding is_at
not_at_other sb id i other = rw other (and_false _)
  where
    and_false : (b : Bool) → (b && false) ≡ false
    and_false true = refl
    and_false false = refl

pub at_own : (i : Inode) → i.instances ≢ 0 → is_at i.backing_superblock i.id (some i) ≡ true
unfolding is_at
at_own i ne = ground arith

pub free_not_at : (sb id : ℕ) (x : Option Inode) → is_free x ≡ true → is_at sb id x ≡ false
unfolding is_at is_free
free_not_at sb id none e = refl
free_not_at sb id (some i) e = ground arith

-- What a call has done to the map: nothing for other keys, and the slot that it returns is found under the
-- inode's own key.
abbrev pub Registers : Inode → Inodes → Outcome × Option ℕ × Inodes → Type 0
Registers i s (o, slot, s') =
    ((sb id : ℕ)
      → IsOther sb id i
      → get_inode sb id s'.kernel_inodes ≡ get_inode sb id s.kernel_inodes)
    × ((k : ℕ) → slot ≡ some k → get_inode i.backing_superblock i.id s'.kernel_inodes ≡ some k)

-- A write to one slot, of an inode with the same key.
pub put_elsewhere :
    (i v : Inode) (k : ℕ) (s : Inodes)
    → (v.backing_superblock ≡ i.backing_superblock) × (v.id ≡ i.id)
    → ((sb id : ℕ) → IsOther sb id i → is_at sb id (get_or s.kernel_inodes k none) ≡ false)
    → (sb id : ℕ) → IsOther sb id i
    → get_inode sb id (set s.kernel_inodes k (some v)) ≡ get_inode sb id s.kernel_inodes
unfolding get_inode
put_elsewhere i v k s (e, e') unseen sb id other =
    first_slot-unseen (is_at sb id) 0 s.kernel_inodes k (some v) (unseen sb id other)
      (not_at_other sb id v (rw (e, e') other))

-- A slot with the inode's key has no other key.
pub own_not_other :
    (i : Inode) (x : Option Inode)
    → is_at i.backing_superblock i.id x ≡ true
    → (sb id : ℕ) → IsOther sb id i
    → is_at sb id x ≡ false
unfolding is_at
own_not_other i none e sb id other = refl
own_not_other i (some x) e sb id other = ground arith

pub not_found : {k : ℕ} → none ≢ some k
not_found e = cc

-- `open_dev` leaves the inode in its slot, and what the table says of superblocks, ids and counts as it was.
unfoldable pub IsPlain : Opens → Type 0
IsPlain o =
    (flags k : ℕ) (s : Inodes)
    → ((o.open_dev flags k s).1 ≡ k) × ((o.open_dev flags k s).2.kernel_inodes ≡ s.kernel_inodes)

-- Only the slot and the slots of the table matter.
pub Registers-same :
    (i : Inode) (s : Inodes) (x y : Outcome × Option ℕ × Inodes)
    → (y.1 ≡ x.1)
    → (y.2.kernel_inodes ≡ x.2.kernel_inodes)
    → Registers i s x
    → Registers i s y
Registers-same i s x y e e' (elsewhere, own) = (
  λ sb id h. ap (get_inode sb id) e' ∙ elsewhere sb id h,
  λ k got. ap (get_inode i.backing_superblock i.id) e' ∙ own k (sym e ∙ got),
)

set_twice : {A : Type 0} (xs : List A) (k : ℕ) (x y : A) → set (set xs k x) k y ≡ set xs k y
set_twice [] k x y = refl
set_twice (z ∷ xs) zero x y = refl
set_twice (z ∷ xs) (suc k) x y = ap (λ l. z ∷ l) (set_twice xs k x y)

-- The inode of a slot that has just been written is written again.
pub put_again :
    (f : Inode → Inode) (v : Inode) (k slot : ℕ) (xs : Slots) (s : Inodes)
    → k < length xs
    → slot ≡ k
    → s.kernel_inodes ≡ set xs k (some v)
    → set s.kernel_inodes slot (some (f (inode_at slot s))) ≡ set xs k (some (f v))
put_again f v k slot xs s lt e at =
    rw (e, at, inode_at, get_or-set_self xs k (some v) none lt)
      (set_twice xs k (some v) (some (f v)))

pub if_either :
    {A : Type 0} (P : A → Type 0) (b : Bool) {x y : A} → P x → P y → P (if b then x else y)
if_either P true p q = p
if_either P false p q = q

pub own_key :
    (i x : Inode)
    → is_at i.backing_superblock i.id (some x) ≡ true
    → (x.backing_superblock ≡ i.backing_superblock) × (x.id ≡ i.id)
unfolding is_at
own_key i x e = ground arith

pub at_key :
    (i v : Inode)
    → (v.backing_superblock ≡ i.backing_superblock) × (v.id ≡ i.id)
    → v.instances ≢ 0
    → is_at i.backing_superblock i.id (some v) ≡ true
unfolding is_at
at_key i v e ne = ground arith
