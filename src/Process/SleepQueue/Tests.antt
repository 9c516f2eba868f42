-- ===== src/Process/SleepQueue/Tests.antt =====
-- The theorems on the sleep queue at a queue of three threads.
use unstable_os.Base.{List, [], arith, false, refl, some, ℕ, ◌∷◌, ◌≡◌}
use unstable_os.Process.Thread.{Thread, Threads, interr_sleep, runnable}
use unstable_os.Process.SleepQueue.{Entry, live, sleep_enqueue, sleep_sched_tick}
use unstable_os.Process.SleepQueue.Deadlines.{add_deadline, after, deadlines}
use unstable_os.Process.SleepQueue.Insert.{sleep_enqueue-deadlines}
use unstable_os.Process.SleepQueue.Tick.{due_values, sleep_sched_tick-deadlines, woken}

abbrev sleeper : Thread
sleeper = record { instances = 2; status = interr_sleep; magic_queue_value = 4; freed = false }

abbrev sleepers : Threads
sleepers = λ _. sleeper

abbrev entry : ℕ → ℕ → Entry
entry t d = record { process = 1; thread = t; magic_queue_value = 4; time_delta_usec = d }

-- Due after 500, 1500 and 5500 microseconds.
abbrev three : List Entry
three = entry 1 500 ∷ entry 2 1000 ∷ entry 3 4000 ∷ []

three-deadlines : deadlines three ≡ (1, 1, 500) ∷ (1, 2, 1500) ∷ (1, 3, 5500) ∷ []
unfolding deadlines
three-deadlines = refl

sleep_enqueue-deadlines_example :
    (q' : List Entry) × (ts' : Threads) × (sleep_enqueue 2000 1 7 7
        (record { sq = live three; threads = sleepers })
      ≡ some (record { sq = live q'; threads = ts' }))
    × (deadlines q' ≡ add_deadline (1, 7, 2000) (deadlines three))
    × ((ts' 7).instances ≡ 3)
    × ((ts' 7).status ≡ interr_sleep)
sleep_enqueue-deadlines_example = sleep_enqueue-deadlines 2000 1 7 7 three sleepers (omega arith)

sleep_sched_tick-deadlines_example :
    (q' : List Entry) × (ts' : Threads) × (sleep_sched_tick 2
        (record { sq = live three; threads = sleepers })
      ≡ some (record { sq = live q'; threads = ts' }))
    × (deadlines q' ≡ after 1952 (deadlines three))
    × ((j : ℕ) → ts' j ≡ woken (due_values j 1952 0 three) sleeper)
sleep_sched_tick-deadlines_example = sleep_sched_tick-deadlines 2 three sleepers (omega arith)

-- The second thread is woken then, and the third is not.
second_due :
    woken (due_values 2 1952 0 three) sleeper
    ≡ record { instances = 1; status = runnable; magic_queue_value = 5; freed = false }
unfolding woken due_values
second_due = refl

third_not_due : woken (due_values 3 1952 0 three) sleeper ≡ sleeper
unfolding woken due_values
third_not_due = refl
