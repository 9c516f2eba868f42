-- ===== src/Process/SleepQueue/Tick.antt =====
-- The tick of the clock, against the deadlines.
use unstable_os.Base.{
  Bool-cases, List, [], ap, arith, eqb_refl, eqb→eq, false, if◌then◌else◌, inl, inr, leb, refl,
  some, sym, true, ℕ, ◌%◌, ◌&&◌, ◌*◌, ◌+◌, ◌-◌, ◌<◌, ◌==◌, ◌^◌, ◌∙◌, ◌∷◌, ◌≡◌, ◌≤◌,
}
use unstable_os.Process.Thread.{Thread, Threads, release, runnable}
use unstable_os.Process.SleepQueue.{
  Entry, live, rtc_time_resolution_usec, sleep_pop_thread, sleep_sched_tick, tick_loop, wake,
}
use unstable_os.Process.SleepQueue.Deadlines.{after, deadlines, deadlines_from}

-- Deadlines behind the moment `n` all come nearer by `n`.
after_later :
    (n acc : ℕ) (q : List Entry)
    → n < acc
    → after n (deadlines_from acc q) ≡ deadlines_from (acc - n) q
unfolding after deadlines_from
after_later n acc [] h = refl
after_later n acc (e ∷ q) h =
    let d = e.time_delta_usec in
    let late : leb (acc + d) n ≡ false = ground arith in
    let k : acc + d - n ≡ acc - n + d = omega arith in
    rw (late, after_later n (acc + d) q (omega arith), k)

tick_loop-after :
    (n acc : ℕ) (q : List Entry) (ts : Threads)
    → acc ≤ n
    → deadlines_from 0 (tick_loop (n - acc) q ts).0 ≡ after n (deadlines_from acc q)
unfolding tick_loop deadlines_from after
tick_loop-after n acc [] ts h = refl
tick_loop-after n acc (e ∷ q) ts h = elim (Bool-cases (leb e.time_delta_usec (n - acc))) [
  | inl now ↦
      let k : leb (acc + e.time_delta_usec) n ≡ true = ground arith in
      let r : n - acc - e.time_delta_usec ≡ n - (acc + e.time_delta_usec) = omega arith in
      rw (now, k, r)
        (tick_loop-after n (acc + e.time_delta_usec) q (sleep_pop_thread e ts) (ground arith))
  | inr later ↦
      let l : n < acc + e.time_delta_usec = ground arith in
      let k : leb (acc + e.time_delta_usec) n ≡ false = ground arith in
      let r : e.time_delta_usec - (n - acc) ≡ acc + e.time_delta_usec - n = omega arith in
      rw (later, k, r, after_later n (acc + e.time_delta_usec) q l)
        (ap (λ t. (e.process, e.thread, t) ∷ deadlines_from t q) (omega arith))
]

tick_loop-deadlines :
    (n : ℕ) (q : List Entry) (ts : Threads) → deadlines (tick_loop n q ts).0 ≡ after n (deadlines q)
unfolding deadlines
tick_loop-deadlines n q ts =
    let z : n - 0 ≡ n = omega arith in rw z at (tick_loop-after n 0 q ts (omega arith))

-- The magic values with which the thread `j` is named by the entries that are due within `n` microseconds,
-- where the first is due `acc` microseconds later than it says.
unfoldable pub due_values : ℕ → ℕ → ℕ → List Entry → List ℕ
due_values j n acc [] = []
due_values j n acc (e ∷ q) =
    let at = acc + e.time_delta_usec in
    let rest = due_values j n at q in
    if leb at n && e.thread == j then e.magic_queue_value ∷ rest else rest

-- A thread that entries with these magic values wake one after the other: each gives back a hold on it;
-- where the value is the thread's, the thread is runnable and has another value.
unfoldable pub woken : List ℕ → Thread → Thread
woken [] t = t
woken (m ∷ l) t =
    if m == t.magic_queue_value
    then woken l (release (record t { status = runnable; magic_queue_value = (m + 1) % 2 ^ 32 }))
    else woken l (release t)

due_values_later : (j n acc : ℕ) (q : List Entry) → n < acc → due_values j n acc q ≡ []
unfolding due_values
due_values_later j n acc [] h = refl
due_values_later j n acc (e ∷ q) h =
    ground (arith, due_values_later j n (acc + e.time_delta_usec) q)

woken-wake :
    (e : Entry) (l : List ℕ) (t : Thread) → woken (e.magic_queue_value ∷ l) t ≡ woken l (wake e t)
unfolding woken
woken-wake e l t = elim (Bool-cases (e.magic_queue_value == t.magic_queue_value)) [
  | inl same ↦ rw same (
      ap
        (λ m.
          woken l (release (record t { status = runnable; magic_queue_value = (m + 1) % 2 ^ 32 })))
        (eqb→eq _ _ same))
  | inr other ↦ rw other refl
]

pop_other :
    (j : ℕ) (e : Entry) (ts : Threads) → (e.thread == j) ≡ false → sleep_pop_thread e ts j ≡ ts j
unfolding sleep_pop_thread
pop_other j e ts h = ground arith

pop_own :
    (j : ℕ) (e : Entry) (ts : Threads)
    → (e.thread == j) ≡ true
    → sleep_pop_thread e ts j ≡ wake e (ts j)
unfolding sleep_pop_thread
pop_own j e ts h = let own = eqb→eq _ _ h in rw (own, eqb_refl j) refl

tick_loop-woken :
    (j n acc : ℕ) (q : List Entry) (ts : Threads)
    → acc ≤ n
    → (tick_loop (n - acc) q ts).1 j ≡ woken (due_values j n acc q) (ts j)
unfolding tick_loop due_values
tick_loop-woken j n acc [] ts h = unfold woken in refl
tick_loop-woken j n acc (e ∷ q) ts h = elim (Bool-cases (leb e.time_delta_usec (n - acc))) [
  | inl now ↦
      let r : n - acc - e.time_delta_usec ≡ n - (acc + e.time_delta_usec) = omega arith in
      let k : leb (acc + e.time_delta_usec) n ≡ true = ground arith in
      let rest =
        tick_loop-woken j n (acc + e.time_delta_usec) q (sleep_pop_thread e ts) (ground arith) in
      elim (Bool-cases (e.thread == j)) [
        | inl own ↦
            rw (now, r, k, own)
              (rest ∙ ap (woken _) (pop_own j e ts own) ∙ sym (woken-wake e _ (ts j)))
        | inr other ↦ rw (now, r, k, other) (rest ∙ ap (woken _) (pop_other j e ts other))
      ]
  | inr later ↦
      let k : leb (acc + e.time_delta_usec) n ≡ false = ground arith in
      let none_due = due_values_later j n (acc + e.time_delta_usec) q (ground arith) in
      unfold woken in rw (later, k, none_due) refl
]

-- If the microseconds of the ticks fit in 32 bits, a tick wakes what is due and nothing else: the
-- deadlines that are not yet reached all come nearer by the time that has passed, the others are
-- gone, and every thread is as the entries that name it and were due, if any, leave it one after the
-- other. Each gives back a hold on the thread; one with the thread's own magic value makes it runnable and
-- moves that value on, so that any other wait it was queued for no longer holds.
pub sleep_sched_tick-deadlines :
    (ticks : ℕ) (q : List Entry) (ts : Threads)
    → ticks * 976 < 2 ^ 32
    → (q' : List Entry) × (ts' : Threads) × (sleep_sched_tick ticks
          (record { sq = live q; threads = ts })
        ≡ some (record { sq = live q'; threads = ts' }))
      × (deadlines q' ≡ after (ticks * 976) (deadlines q))
      × ((j : ℕ) → ts' j ≡ woken (due_values j (ticks * 976) 0 q) (ts j))
unfolding sleep_sched_tick deadlines
sleep_sched_tick-deadlines ticks q ts small =
    let k : rtc_time_resolution_usec * ticks % 2 ^ 32 ≡ ticks * 976 = omega arith in
    let z : ticks * 976 - 0 ≡ ticks * 976 = omega arith in
    (
      (tick_loop (ticks * 976) q ts).0,
      (tick_loop (ticks * 976) q ts).1,
      rw k refl,
      tick_loop-deadlines (ticks * 976) q ts,
      λ j. rw z at (tick_loop-woken j (ticks * 976) 0 q ts (omega arith)),
    )
