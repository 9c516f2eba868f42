-- ===== src/Sync/Tests/RwLocks.antt =====
-- The lock of readers and writers with two threads.
use unstable_os.Base.{arith, false, refl, true, ℕ, ◌≢◌}
use unstable_os.Sync.Threads.{set_at}
use unstable_os.Sync.RwLock.{
  AnyStep, Place, Reach, RwLock, Step, System, count_first, downgraded, entered, entering, give_v,
  later, leaving, pick, reading, start, take_v, take_v_again, take_w, unlocked, waiting, write,
  writing,
}
use unstable_os.Sync.RwLock.Exclusion.{Reach-exclusive, downgrade_stuck}
use unstable_os.Sync.RwLock.Progress.{Reach-Step}

abbrev act : System → ℕ → RwLock → Place → System
act s i m p = record { lock = m; place = set_at i p s.place }

-- The thread 0 writes.
abbrev written : System
written = act unlocked 0 (record { value = 0; vlock = false; wlock = true }) writing

written-Reach : Reach 2 written
written-Reach = later start (pick 0 (omega arith) (write refl))

Reach-exclusive_example : (written.place 1 ≢ writing) × (written.place 1 ≢ reading)
Reach-exclusive_example =
    Reach-exclusive 2 0 1 written (omega arith) written-Reach (omega arith) (omega arith)
      (omega arith) refl

-- Then the thread 1 waits as the first reader.
abbrev entered_one : System
entered_one = act written 1 (record { value = 0; vlock = true; wlock = true }) entering

abbrev waited : System
waited = act entered_one 1 (record { value = 1; vlock = true; wlock = true }) waiting

waited-Reach : Reach 2 waited
waited-Reach =
    later (later written-Reach (pick 1 (omega arith) (take_v refl)))
      (pick 1 (omega arith) (count_first refl))

downgrade_stuck_example : ¬ AnyStep 2 (downgraded 0 waited) unlocked
downgrade_stuck_example =
    downgrade_stuck 2 0 1 waited unlocked (omega arith) waited-Reach (omega arith) (omega arith)
      refl refl

Reach-Step_example : (t : System) × Step 2 waited t
Reach-Step_example = Reach-Step 2 waited (omega arith) (omega arith) waited-Reach

-- The thread 0 reads alone and is about to leave.
abbrev s1 : System
s1 = act unlocked 0 (record { value = 0; vlock = true; wlock = false }) entering

abbrev s2 : System
s2 = act s1 0 (record { value = 1; vlock = true; wlock = false }) waiting

abbrev s3 : System
s3 = act s2 0 (record { value = 1; vlock = true; wlock = true }) entered

abbrev s4 : System
s4 = act s3 0 (record { value = 1; vlock = false; wlock = true }) reading

abbrev s5 : System
s5 = act s4 0 (record { value = 1; vlock = true; wlock = true }) leaving

s5-Reach : Reach 2 s5
s5-Reach =
    later
      (later
        (later
          (later (later start (pick 0 (omega arith) (take_v refl)))
            (pick 0 (omega arith) (count_first refl)))
          (pick 0 (omega arith) (take_w refl)))
        (pick 0 (omega arith) give_v))
      (pick 0 (omega arith) (take_v_again refl))
