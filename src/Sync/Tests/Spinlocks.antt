-- ===== src/Sync/Tests/Spinlocks.antt =====
-- The spinlock and the semaphores with two threads.
use unstable_os.Base.{Bool, arith, false, refl, true, ℕ, ◌==◌, ◌≡◌}
use unstable_os.Sync.Threads.{set_at}
use unstable_os.Sync.Spinlock.{
  Reach, Reach-unique, System, flags_lost, holding, later, outside, pick, save, start, trying, win,
}

-- The thread 0 with interrupts enabled holds the lock; the thread 1 runs with interrupts disabled.
abbrev flags : ℕ → Bool
flags i = i == 0

abbrev taken : System
taken = record {
  lock = record { state = true; eflags = true };
  place = set_at 0 (holding true) (set_at 0 (trying true) (λ i. outside (flags i)));
}

taken-Reach : Reach 2 flags taken
taken-Reach = later (later start (pick 0 (omega arith) save)) (pick 0 (omega arith) (win refl))

Reach-unique_example : ◌≡◌ {A = ℕ} 0 0
Reach-unique_example =
    Reach-unique 2 0 0 flags taken true true taken-Reach (omega arith) (omega arith) refl refl

flags_lost_example :
    (t : System) × Reach 2 flags t × (t.place 0 ≡ outside false) × (t.place 1 ≡ trying false)
flags_lost_example =
    flags_lost 2 0 1 flags taken true false taken-Reach (omega arith) (omega arith) refl refl
