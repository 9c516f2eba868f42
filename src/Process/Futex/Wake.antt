-- ===== src/Process/Futex/Wake.antt =====
-- Who is woken, src/futex.c.
use unstable_os.Base.{
  Bool-cases, List, [], ap, arith, false, if◌then◌else◌, inl, inr, length, le→ltb_false, min,
  ne→eqb_false, suc, true, zero, ℕ, ◌&&◌, ◌+◌, ◌-◌, ◌==◌, ◌∙◌, ◌∷◌, ◌≡◌, ◌≤◌, ◌⊎◌,
}
use unstable_os.Process.Thread.{runnable}
use unstable_os.Process.Futex.{
  Waiter, futex_wake, futex_wake_owner_dead, long_max, waits_on, wake_loop,
}

-- How many threads wait on the word at `addr`.
unfoldable pub waiters : ℕ → List Waiter → ℕ
waiters addr [] = 0
waiters addr (t ∷ ts) = if waits_on addr t then suc (waiters addr ts) else waiters addr ts

-- The state after the first `n` threads that wait on `addr` have been woken.
unfoldable pub wake_first : ℕ → ℕ → List Waiter → List Waiter
wake_first addr zero ts = ts
wake_first addr (suc n) [] = []
wake_first addr (suc n) (t ∷ ts) =
    if waits_on addr t
    then record t { is_waiting_on_futex = false; status = runnable } ∷ wake_first addr n ts
    else t ∷ wake_first addr (suc n) ts

wake_loop-first :
    (addr most woken n : ℕ) (ts : List Waiter)
    → most ≡ woken + suc n
    → wake_loop addr most woken ts
      ≡ (wake_first addr (suc n) ts, woken + min (suc n) (waiters addr ts))
unfolding wake_loop wake_first waiters
wake_loop-first addr most woken n [] h = ground arith
wake_loop-first addr most woken zero (t ∷ ts) h =
    ground (arith, wake_loop-first addr most woken zero ts)
wake_loop-first addr most woken (suc n) (t ∷ ts) h =
    ground (
      arith,
      wake_loop-first addr most woken (suc n) ts,
      wake_loop-first addr most (woken + 1) n ts,
    )

waiters-wake_first :
    (addr n : ℕ) (ts : List Waiter) → waiters addr (wake_first addr n ts) ≡ waiters addr ts - n
unfolding wake_first waiters
waiters-wake_first addr zero ts = omega arith
waiters-wake_first addr (suc n) [] = omega arith
waiters-wake_first addr (suc n) (t ∷ ts) =
    ground (arith, waiters-wake_first addr n ts, waiters-wake_first addr (suc n) ts)

-- `futex_wake` wakes as many of the threads that wait on the word as it was asked to, the first ones in
-- the order of the process, or all of them if there are no more, and returns their number.
pub futex_wake_lem :
    (addr count : ℕ) (ts : List Waiter)
    → count ≤ long_max
    → futex_wake addr count ts ≡ (wake_first addr count ts, min count (waiters addr ts))
unfolding futex_wake wake_first
futex_wake_lem addr zero ts h = ground arith
futex_wake_lem addr (suc n) ts h =
    rw (ne→eqb_false (suc n) 0 (omega arith), le→ltb_false long_max (suc n) h)
      (wake_loop-first addr (suc n) 0 n ts (omega arith)
        ∙ ap (λ k. (wake_first addr (suc n) ts, k)) (omega arith))

-- Asked for at least as many as wait, it leaves nobody waiting on the word.
pub futex_wake_all :
    (addr count : ℕ) (ts : List Waiter)
    → count ≤ long_max
    → waiters addr ts ≤ count
    → waiters addr (futex_wake addr count ts).0 ≡ 0
futex_wake_all addr count ts h k =
    rw (futex_wake_lem addr count ts h) (omega (arith, waiters-wake_first addr count ts))

pub waiters-le-length : (addr : ℕ) (ts : List Waiter) → waiters addr ts ≤ length ts
unfolding waiters
waiters-le-length addr [] = omega arith
waiters-le-length addr (t ∷ ts) = ground (arith, waiters-le-length addr ts)

-- A thread that waited for a dead owner, and one that did not.
abbrev pub OwnerDied : ℕ → Waiter → Waiter → Type 0
OwnerDied owner t u =
    (((t.is_waiting_on_futex ≡ true) × (t.futex_owner ≡ owner))
      × (u ≡ record t { owner_dead = true; is_waiting_on_futex = false; status = runnable }))
    ⊎ ((¬ ((t.is_waiting_on_futex ≡ true) × (t.futex_owner ≡ owner))) × (u ≡ t))

-- Both lists have the same threads in the same order, each related to the one in its place.
abbrev pub AllOwnerDied : ℕ → List Waiter → List Waiter → Type 0
AllOwnerDied owner [] [] = Unit {0}
AllOwnerDied owner (t ∷ ts) (u ∷ us) = OwnerDied owner t u × AllOwnerDied owner ts us
AllOwnerDied owner _ _ = ⊥

OwnerDied-step :
    (owner : ℕ) (t : Waiter)
    → OwnerDied owner t (
        if t.is_waiting_on_futex && t.futex_owner == owner
        then record t { owner_dead = true; is_waiting_on_futex = false; status = runnable }
        else t)
OwnerDied-step owner t = elim (Bool-cases (t.is_waiting_on_futex && t.futex_owner == owner)) [
  | inl e ↦ inl ((ground arith, ground arith), rw e)
  | inr e ↦ inr (λ h. ground arith, rw e)
]

-- When a thread dies, exactly the threads that wait for it as an owner run again, with a note that
-- their owner is dead; every other thread is as it was.
pub futex_wake_owner_dead_lem :
    (owner : ℕ) (ts : List Waiter) → AllOwnerDied owner ts (futex_wake_owner_dead owner ts)
unfolding futex_wake_owner_dead
futex_wake_owner_dead_lem owner [] = tt
futex_wake_owner_dead_lem owner (t ∷ ts) =
    (OwnerDied-step owner t, futex_wake_owner_dead_lem owner ts)
