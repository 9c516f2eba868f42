-- ===== src/Sync/RwLock.antt =====
-- The lock of many readers or one writer of src/kernel_sync_primitives.c. A thread that spins on one of
-- the two spinlocks has no step while it is taken. The saved flags do not matter here.
pub mod Counts
pub mod Exclusion
pub mod Progress
use unstable_os.Base.{Bool, false, true, ℕ, ◌%◌, ◌+◌, ◌-◌, ◌<◌, ◌^◌, ◌≡◌, ◌≢◌}
use unstable_os.Sync.Threads.{set_at}

-- `rw_spinlock_t`
pub record RwLock : Type 0 where
  pub value : ℕ
  pub vlock : Bool
  pub wlock : Bool

-- Where a thread is: in `rw_spinlock_acquire_read` with `vlock` (`entering`), counted as the first
-- reader but without `wlock` (`waiting`), about to release `vlock` (`entered`); with the lock for reading
-- or writing; in `rw_spinlock_release_read` with `vlock` (`leaving`), counted out as the last reader
-- (`freeing`), about to release `vlock` (`left`).
pub data Place : Type 0 where
  outside entering waiting entered reading leaving freeing left writing : Place

-- One step of a thread on the lock. `rw_spinlock_release_read` with `value` 0 panics: no step.
pub data Move (m : RwLock) : Place → RwLock → Place → Type 0 where
  take_v : m.vlock ≡ false → Move m outside (record m { vlock = true }) entering
  count_other :
      (m.value + 1) % 2 ^ 32 ≢ 1
      → Move m entering (record m { value = (m.value + 1) % 2 ^ 32 }) entered
  count_first :
      (m.value + 1) % 2 ^ 32 ≡ 1
      → Move m entering (record m { value = (m.value + 1) % 2 ^ 32 }) waiting
  take_w : m.wlock ≡ false → Move m waiting (record m { wlock = true }) entered
  give_v : Move m entered (record m { vlock = false }) reading
  take_v_again : m.vlock ≡ false → Move m reading (record m { vlock = true }) leaving
  uncount_other :
      m.value ≢ 0 → m.value - 1 ≢ 0 → Move m leaving (record m { value = m.value - 1 }) left
  uncount_last :
      m.value ≢ 0 → m.value - 1 ≡ 0 → Move m leaving (record m { value = m.value - 1 }) freeing
  give_w : Move m freeing (record m { wlock = false }) left
  give_v_again : Move m left (record m { vlock = false }) outside
  write : m.wlock ≡ false → Move m outside (record m { wlock = true }) writing
  unwrite : Move m writing (record m { wlock = false }) outside

-- `rw_spinlock_downgrade`
unfoldable pub downgrade : RwLock → RwLock
downgrade m = record m { value = (m.value + 1) % 2 ^ 32 }

pub record System : Type 0 where
  pub lock : RwLock
  pub place : ℕ → Place

-- A step of one of `n` threads.
pub data Step (n : ℕ) (s : System) : System → Type 0 where
  pick :
      (i : ℕ) {m : RwLock} {p : Place}
      → i < n
      → Move s.lock (s.place i) m p
      → Step n s (record { lock = m; place = set_at i p s.place })

abbrev pub downgraded : ℕ → System → System
downgraded i s = record { lock = downgrade s.lock; place = set_at i reading s.place }

-- The steps with those in which a writer becomes a reader.
pub data AnyStep (n : ℕ) (s : System) : System → Type 0 where
  plain : {t : System} → Step n s t → AnyStep n s t
  down : (i : ℕ) → i < n → s.place i ≡ writing → AnyStep n s (downgraded i s)

abbrev pub unlocked : System
unlocked = record {
  lock = record { value = 0; vlock = false; wlock = false };
  place = λ i. outside;
}

-- What the steps without a downgrade lead to.
pub data Reach (n : ℕ) : System → Type 0 where
  start : Reach n unlocked
  later : {s t : System} → Reach n s → Step n s t → Reach n t
