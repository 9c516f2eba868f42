-- ===== src/Process/SleepQueue.antt =====
-- The queue of sleeping threads, src/kernel_sched_sleep_queue.c. An entry holds the time that passes
-- between the wake of the entry before it and its own. `time_t` has 64 bits and is signed; its
-- overflow is undefined in C, and the sums here are those of the unbounded numbers.
pub mod Deadlines
pub mod Insert
pub mod Tick
pub mod Remove
mod Tests
use unstable_os.Base.{
  Bool, List, Option, [], false, if◌then◌else◌, leb, ltb, none, some, true, ℕ, ◌%◌, ◌&&◌, ◌*◌, ◌+◌,
  ◌-◌, ◌/◌, ◌==◌, ◌^◌, ◌∷◌,
}
use unstable_os.Process.Thread.{Thread, Threads, interr_sleep, modify, release, runnable}

-- `struct sleep_queue`
pub record Entry : Type 0 where
  pub process : ℕ
  pub thread : ℕ
  pub magic_queue_value : ℕ
  pub time_delta_usec : ℕ

-- What the global `sq` points at: a list of entries, or memory that has been freed.
pub data Sq : Type 0 where
  live : List Entry → Sq
  dangling : Sq

pub record State : Type 0 where
  pub sq : Sq
  pub threads : Threads

-- RTC_TIME_RESOLUTION_USEC
abbrev pub rtc_time_resolution_usec : ℕ
rtc_time_resolution_usec = 1000000 / 1024

-- What `sleep_pop_thread` does to the thread of the first entry.
abbrev pub wake : Entry → Thread → Thread
wake e t =
    if e.magic_queue_value == t.magic_queue_value
    then release
        (record t { status = runnable; magic_queue_value = (t.magic_queue_value + 1) % 2 ^ 32 })
    else release t

pub sleep_pop_thread : Entry → Threads → Threads
sleep_pop_thread e ts = modify e.thread (wake e) ts

-- The loop of `sleep_sched_tick` and the write behind it, with `delta` microseconds left.
pub tick_loop : ℕ → List Entry → Threads → List Entry × Threads
unfolding sleep_pop_thread
tick_loop delta [] ts = ([], ts)
tick_loop delta (e ∷ q) ts =
    let rest = tick_loop (delta - e.time_delta_usec) q (sleep_pop_thread e ts) in
    if leb e.time_delta_usec delta
    then rest
    else (record e { time_delta_usec = e.time_delta_usec - delta } ∷ q, ts)

-- `none` is a read of freed memory. The product is one of `size_t`.
pub sleep_sched_tick : ℕ → State → Option State
unfolding tick_loop
sleep_sched_tick ticks s = elim s.sq [
  | live q ↦
      let (q', ts') = tick_loop ((rtc_time_resolution_usec * ticks) % 2 ^ 32) q s.threads in
      some (record { sq = live q'; threads = ts' })
  | dangling ↦ none
]

-- The part of `sys_clock_nanosleep` that links the new entry in: `acc` is `queue_deltas_usec`.
pub insert_from : ℕ → ℕ → Entry → List Entry → List Entry
insert_from acc requested e [] = record e { time_delta_usec = requested - acc } ∷ []
insert_from acc requested e (n ∷ q) =
    let rest = insert_from (acc + n.time_delta_usec) requested e q in
    if ltb requested (acc + n.time_delta_usec)
    then record e { time_delta_usec = requested - acc }
      ∷ (record n { time_delta_usec = n.time_delta_usec - (requested - acc) } ∷ q)
    else n ∷ rest

abbrev pub new_entry : ℕ → ℕ → Threads → Entry
new_entry process thread ts = record {
  process = process;
  thread = thread;
  magic_queue_value = (ts thread).magic_queue_value;
  time_delta_usec = 0;
}

-- One more hold on `thread`, and the thread `me` is asleep.
abbrev pub fall_asleep : ℕ → ℕ → Threads → Threads
fall_asleep thread me ts =
    modify me (λ t. record t { status = interr_sleep })
      (modify thread (λ t. record t { instances = t.instances + 1 }) ts)

-- The locked part of `sys_clock_nanosleep`, and the count of the new entry's hold on its thread. `me`
-- is `current_thread`. The code panics where the count of holds would reach its limit, `none`.
pub sleep_enqueue : ℕ → ℕ → ℕ → ℕ → State → Option State
unfolding insert_from
sleep_enqueue requested process thread me s = elim s.sq [
  | live q ↦
      if (s.threads thread).instances + 1 == 2 ^ 32 - 1
      then none
      else some (record {
        sq = live (insert_from 0 requested (new_entry process thread s.threads) q);
        threads = fall_asleep thread me s.threads;
      })
  | dangling ↦ none
]

-- `entry->thread == thread && entry->process == pprocess`
abbrev pub names : ℕ → ℕ → Entry → Bool
names process thread e = e.thread == thread && e.process == process

-- `curr->next->time_delta_usec += curr->time_delta_usec`
abbrev pub pass_on : ℕ → List Entry → List Entry
pass_on d [] = []
pass_on d (n ∷ q) = record n { time_delta_usec = n.time_delta_usec + d } ∷ q

-- The loop of `sleep_remove_thread` over the entries behind the first, and whether one was removed.
pub remove_loop : ℕ → ℕ → List Entry → List Entry × Bool
remove_loop process thread [] = ([], false)
remove_loop process thread (e ∷ q) =
    let rest = remove_loop process thread q in
    if names process thread e then (pass_on e.time_delta_usec q, true) else (e ∷ rest.0, rest.1)

-- The first entry is freed where it is the one to go; `sq` is set only where nothing follows it.
pub sleep_remove_thread : ℕ → ℕ → State → Option State
unfolding remove_loop
sleep_remove_thread process thread s = elim s.sq [
  | live [] ↦ some s
  | live (e ∷ []) ↦
      if names process thread e
      then some (record { sq = live []; threads = modify thread release s.threads })
      else some s
  | live (e ∷ (n ∷ q)) ↦
      if names process thread e
      then some (record { sq = dangling; threads = modify thread release s.threads })
      else (let (q', found) = remove_loop process thread (n ∷ q) in
          some (record {
            sq = live (e ∷ q');
            threads = if found then modify thread release s.threads else s.threads;
          }))
  | dangling ↦ none
]
