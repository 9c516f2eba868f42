-- ===== src/Process/SleepQueue/Insert.antt =====
-- A new sleeper, against the deadlines.
use unstable_os.Base.{
  Bool-cases, List, [], ap, arith, inl, inr, ltb, ltb_false→le, ltb→lt, ne→eqb_false, some, ℕ, ◌+◌,
  ◌-◌, ◌<◌, ◌^◌, ◌∷◌, ◌≡◌, ◌≤◌,
}
use unstable_os.Process.Thread.{Threads, interr_sleep}
use unstable_os.Process.SleepQueue.{Entry, fall_asleep, insert_from, live, new_entry, sleep_enqueue}
use unstable_os.Process.SleepQueue.Deadlines.{add_deadline, deadlines, deadlines_from}

later_test :
    (acc d requested : ℕ)
    → acc ≤ requested
    → requested < acc + d
    → acc + (requested - acc) + (d - (requested - acc)) ≡ acc + d
later_test acc d requested h k = omega arith

insert_from-add :
    (acc requested : ℕ) (e : Entry) (q : List Entry)
    → acc ≤ requested
    → deadlines_from acc (insert_from acc requested e q)
      ≡ add_deadline (e.process, e.thread, requested) (deadlines_from acc q)
unfolding insert_from deadlines_from add_deadline
insert_from-add acc requested e [] h = ground arith
insert_from-add acc requested e (n ∷ q) h =
    elim (Bool-cases (ltb requested (acc + n.time_delta_usec))) [
      | inl before ↦
          let k = later_test acc n.time_delta_usec requested h (ltb→lt _ _ before) in
          let j : acc + (requested - acc) ≡ requested = omega arith in rw (before, k, j)
      | inr behind ↦ rw behind (
          ap (λ l. (n.process, n.thread, acc + n.time_delta_usec) ∷ l)
            (insert_from-add (acc + n.time_delta_usec) requested e q (ltb_false→le _ _ behind)))
    ]

-- A thread that goes to sleep for `requested` microseconds, whose count of holds is below its
-- limit, gets exactly that deadline, behind those that are due no later, and no other deadline
-- moves. The count grows by one, and the caller is asleep.
pub sleep_enqueue-deadlines :
    (requested process thread me : ℕ) (q : List Entry) (ts : Threads)
    → (ts thread).instances < 2 ^ 32 - 2
    → (q' : List Entry) × (ts' : Threads) × (sleep_enqueue requested process thread me
          (record { sq = live q; threads = ts })
        ≡ some (record { sq = live q'; threads = ts' }))
      × (deadlines q' ≡ add_deadline (process, thread, requested) (deadlines q))
      × ((ts' thread).instances ≡ (ts thread).instances + 1)
      × ((ts' me).status ≡ interr_sleep)
unfolding sleep_enqueue deadlines
sleep_enqueue-deadlines requested process thread me q ts few = (
  insert_from 0 requested (new_entry process thread ts) q,
  fall_asleep thread me ts,
  rw (ne→eqb_false ((ts thread).instances + 1) (2 ^ 32 - 1) (omega arith)),
  insert_from-add 0 requested (new_entry process thread ts) q (omega arith),
  ground arith,
  ground arith,
)
