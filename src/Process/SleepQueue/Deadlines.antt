-- ===== src/Process/SleepQueue/Deadlines.antt =====
-- The abstract view of the sleep queue: who is woken after how many microseconds from now.
use unstable_os.Base.{List, [], if◌then◌else◌, leb, ltb, ℕ, ◌&&◌, ◌+◌, ◌-◌, ◌==◌, ◌∷◌}
use unstable_os.Process.SleepQueue.{Entry}

-- A process, one of its threads, and the time from now until it is woken.
abbrev pub Deadline : Type 0
Deadline = ℕ × ℕ × ℕ

-- The deadlines of a queue whose first entry is due `acc` microseconds later than it says.
unfoldable pub deadlines_from : ℕ → List Entry → List Deadline
deadlines_from acc [] = []
deadlines_from acc (e ∷ q) =
    (e.process, e.thread, acc + e.time_delta_usec) ∷ deadlines_from (acc + e.time_delta_usec) q

unfoldable pub deadlines : List Entry → List Deadline
unfolding deadlines_from
deadlines q = deadlines_from 0 q

-- A new deadline goes behind all that are due no later.
unfoldable pub add_deadline : Deadline → List Deadline → List Deadline
add_deadline (p, t, d) [] = (p, t, d) ∷ []
add_deadline (p, t, d) ((p', t', d') ∷ l) =
    if ltb d d' then (p, t, d) ∷ ((p', t', d') ∷ l) else (p', t', d') ∷ add_deadline (p, t, d) l

-- What is left of the deadlines when `n` microseconds have passed.
unfoldable pub after : ℕ → List Deadline → List Deadline
after n [] = []
after n ((p, t, d) ∷ l) = if leb d n then after n l else (p, t, d - n) ∷ after n l

-- The deadlines without the first one of a thread.
unfoldable pub without : ℕ → ℕ → List Deadline → List Deadline
without process thread [] = []
without process thread ((p, t, d) ∷ l) =
    if t == thread && p == process then l else (p, t, d) ∷ without process thread l
