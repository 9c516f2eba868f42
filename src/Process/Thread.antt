-- ===== src/Process/Thread.antt =====
-- The fields of `thread_t` (src/include/kernel_sched.h) that the queues and futexes use, and a table of
-- threads in place of the pointers to them.
use unstable_os.Base.{Bool, if◌then◌else◌, true, ℕ, ◌-◌, ◌==◌}

-- `enum pstatus_t`
pub data Status : Type 0 where
  running runnable interr_sleep uninterr_sleep waiting : Status
  thread_cleanup v86_thread_cleanup dont_schedule : Status

pub record Thread : Type 0 where
  pub instances : ℕ
  pub status : Status
  pub magic_queue_value : ℕ
  -- The memory has been given back by `kfree`.
  pub freed : Bool

abbrev pub Threads : Type 0
Threads = ℕ → Thread

-- A write to one thread.
abbrev pub modify : ℕ → (Thread → Thread) → Threads → Threads
modify t f ts j = if j == t then f (ts j) else ts j

-- `if (__atomic_sub_fetch(&thread->instances, 1) == 0) kfree(thread);`, for a thread that has an
-- instance.
abbrev pub release : Thread → Thread
release t =
    if t.instances - 1 == 0
    then record t { instances = t.instances - 1; freed = true }
    else record t { instances = t.instances - 1 }
