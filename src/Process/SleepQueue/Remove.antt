-- ===== src/Process/SleepQueue/Remove.antt =====
-- Taking a thread out of the sleep queue, against the deadlines.
use unstable_os.Base.{
  Bool-cases, List, [], ap, arith, false, if◌then◌else◌, inl, inr, none, refl, some, true, ℕ, ◌+◌,
  ◌∷◌, ◌≡◌,
}
use unstable_os.Process.Thread.{Threads, modify, release}
use unstable_os.Process.SleepQueue.{
  Entry, State, dangling, live, names, pass_on, remove_loop, sleep_remove_thread, sleep_sched_tick,
}
use unstable_os.Process.SleepQueue.Deadlines.{deadlines, deadlines_from, without}

pass_on-deadlines :
    (acc d : ℕ) (q : List Entry) → deadlines_from acc (pass_on d q) ≡ deadlines_from (acc + d) q
unfolding deadlines_from
pass_on-deadlines acc d [] = refl
pass_on-deadlines acc d (n ∷ q) =
    let k : acc + (n.time_delta_usec + d) ≡ acc + d + n.time_delta_usec = omega arith in rw k

remove_loop-without :
    (process thread acc : ℕ) (q : List Entry)
    → deadlines_from acc (remove_loop process thread q).0
      ≡ without process thread (deadlines_from acc q)
unfolding remove_loop deadlines_from without
remove_loop-without process thread acc [] = refl
remove_loop-without process thread acc (e ∷ q) = elim (Bool-cases (names process thread e)) [
  | inl found ↦ rw found (pass_on-deadlines acc e.time_delta_usec q)
  | inr other ↦ rw other (
      ap (λ l. (e.process, e.thread, acc + e.time_delta_usec) ∷ l)
        (remove_loop-without process thread (acc + e.time_delta_usec) q))
]

keep_first :
    (process thread acc : ℕ) (e : Entry) (q : List Entry)
    → names process thread e ≡ false
    → deadlines_from acc (e ∷ (remove_loop process thread q).0)
      ≡ without process thread (deadlines_from acc (e ∷ q))
unfolding deadlines_from without
keep_first process thread acc e q other = rw other (
    ap (λ l. (e.process, e.thread, acc + e.time_delta_usec) ∷ l)
      (remove_loop-without process thread (acc + e.time_delta_usec) q))

-- Taking out a thread that is not first in the queue removes its first deadline and moves no other.
pub sleep_remove_thread-deadlines :
    (process thread : ℕ) (e : Entry) (q : List Entry) (ts : Threads)
    → names process thread e ≡ false
    → (q' : List Entry) × (ts' : Threads) × (sleep_remove_thread process thread
          (record { sq = live (e ∷ q); threads = ts })
        ≡ some (record { sq = live q'; threads = ts' }))
      × (deadlines q' ≡ without process thread (deadlines (e ∷ q)))
unfolding sleep_remove_thread deadlines
sleep_remove_thread-deadlines process thread e [] ts other =
    (e ∷ [], ts, rw other, unfold deadlines_from without in rw other)
sleep_remove_thread-deadlines process thread e (n ∷ q) ts other = (
  e ∷ (remove_loop process thread (n ∷ q)).0,
  if (remove_loop process thread (n ∷ q)).1 then modify thread release ts else ts,
  rw other,
  keep_first process thread 0 e (n ∷ q) other,
)

-- Taking out the first thread of a queue that holds others leaves `sq` at freed memory: every later
-- tick reads it.
pub sleep_remove_first :
    (process thread ticks : ℕ) (e n : Entry) (q : List Entry) (ts : Threads)
    → names process thread e ≡ true
    → (s : State) × (sleep_remove_thread process thread
          (record { sq = live (e ∷ (n ∷ q)); threads = ts })
        ≡ some s)
      × (s.sq ≡ dangling)
      × (sleep_sched_tick ticks s ≡ none)
unfolding sleep_remove_thread sleep_sched_tick
sleep_remove_first process thread ticks e n q ts first =
    (record { sq = dangling; threads = modify thread release ts }, rw first, refl, refl)
