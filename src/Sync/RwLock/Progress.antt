-- ===== src/Sync/RwLock/Progress.antt =====
-- Without a downgrade the lock of src/kernel_sync_primitives.c never stops all its threads.
use unstable_os.Base.{
  Bool-cases, arith, eqb_false→ne, eqb→eq, false, inl, inr, ltb, ltb→lt, refl, ℕ, ◌%◌, ◌+◌, ◌-◌,
  ◌<◌, ◌==◌, ◌^◌, ◌≡◌, ◌≢◌,
}
use unstable_os.Sync.Threads.{set_at, tally, tally-find, tally-le, tally-one}
use unstable_os.Sync.RwLock.{
  Move, Place, Reach, RwLock, Step, System, count_first, count_other, entered, entering, freeing,
  give_v, give_v_again, give_w, leaving, left, outside, pick, reading, take_v, take_v_again, take_w,
  uncount_last, uncount_other, unwrite, waiting, writing,
}
use unstable_os.Sync.RwLock.Counts.{Reach-Inv, busy, frees, frees-le-busy, waits, writes}
use unstable_os.Sync.RwLock.Exclusion.{Reach-counted}

Moves : RwLock → Place → Type 0
Moves m p = (m' : RwLock) × (q : Place) × Move m p m' q

busy-Moves : (m : RwLock) (p : Place) → 0 < busy p → (p ≡ leaving → m.value ≢ 0) → Moves m p
unfolding Moves
busy-Moves m outside h v = absurd (omega arith)
busy-Moves m entering h v = elim (Bool-cases ((m.value + 1) % 2 ^ 32 == 1)) [
  | inl e ↦ (_, _, count_first (eqb→eq _ _ e))
  | inr e ↦ (_, _, count_other (eqb_false→ne _ _ e))
]
busy-Moves m waiting h v = absurd (omega arith)
busy-Moves m entered h v = (_, _, give_v)
busy-Moves m reading h v = absurd (omega arith)
busy-Moves m leaving h v = elim (Bool-cases (m.value - 1 == 0)) [
  | inl e ↦ (_, _, uncount_last (v refl) (eqb→eq _ _ e))
  | inr e ↦ (_, _, uncount_other (v refl) (eqb_false→ne _ _ e))
]
busy-Moves m freeing h v = (_, _, give_w)
busy-Moves m left h v = (_, _, give_v_again)
busy-Moves m writing h v = absurd (omega arith)

-- With `vlock` free, a thread that holds nothing of it can go on.
free-Moves : (m : RwLock) (p : Place) → m.vlock ≡ false → busy p ≡ 0 → waits p ≡ 0 → Moves m p
unfolding Moves
free-Moves m outside v b w = (_, _, take_v v)
free-Moves m entering v b w = absurd (omega arith)
free-Moves m waiting v b w = absurd (omega arith)
free-Moves m entered v b w = absurd (omega arith)
free-Moves m reading v b w = (_, _, take_v_again v)
free-Moves m leaving v b w = absurd (omega arith)
free-Moves m freeing v b w = absurd (omega arith)
free-Moves m left v b w = absurd (omega arith)
free-Moves m writing v b w = (_, _, unwrite)

writes-Moves : (m : RwLock) (p : Place) → 0 < writes p → Moves m p
unfolding Moves
writes-Moves m outside h = absurd (omega arith)
writes-Moves m entering h = absurd (omega arith)
writes-Moves m waiting h = absurd (omega arith)
writes-Moves m entered h = absurd (omega arith)
writes-Moves m reading h = absurd (omega arith)
writes-Moves m leaving h = absurd (omega arith)
writes-Moves m freeing h = absurd (omega arith)
writes-Moves m left h = absurd (omega arith)
writes-Moves m writing h = (_, _, unwrite)

waits-Moves : (m : RwLock) (p : Place) → 0 < waits p → m.wlock ≡ false → Moves m p
unfolding Moves
waits-Moves m outside h w = absurd (omega arith)
waits-Moves m entering h w = absurd (omega arith)
waits-Moves m waiting h w = (_, _, take_w w)
waits-Moves m entered h w = absurd (omega arith)
waits-Moves m reading h w = absurd (omega arith)
waits-Moves m leaving h w = absurd (omega arith)
waits-Moves m freeing h w = absurd (omega arith)
waits-Moves m left h w = absurd (omega arith)
waits-Moves m writing h w = absurd (omega arith)

picked_of : (n i : ℕ) (s : System) → i < n → Moves s.lock (s.place i) → (t : System) × Step n s t
unfolding Moves
picked_of n i s h (m, q, mv) = (record { lock = m; place = set_at i q s.place }, pick i h mv)

-- In every state that fewer than `2 ^ 32` threads reach without a downgrade, one of them can take a step.
pub Reach-Step : (n : ℕ) (s : System) → 0 < n → n < 2 ^ 32 → Reach n s → (t : System) × Step n s t
Reach-Step n s some_thread few r =
    let v = Reach-Inv few r in
    let first_busy = tally-one busy n 0 s.place some_thread in
    let first_waits = tally-one waits n 0 s.place some_thread in
    elim (Bool-cases s.lock.vlock) [
      | inr e ↦
          picked_of n 0 s some_thread
            (free-Moves s.lock (s.place 0) e (ground (arith, v.v_held)) (ground (arith, v.v_held)))
      | inl e ↦ elim (Bool-cases (ltb 0 (tally busy n s.place))) [
        | inl b ↦
            let (i, hi, bi) = tally-find busy n s.place (ltb→lt 0 _ b) in
            picked_of n i s hi
              (busy-Moves s.lock (s.place i) bi (λ at. Reach-counted n i s few r hi at))
        | inr b ↦
            let (j, hj, wj) = tally-find waits n s.place (ground (arith, v.v_held)) in
            elim (Bool-cases s.lock.wlock) [
              | inr w ↦ picked_of n j s hj (waits-Moves s.lock (s.place j) wj w)
              | inl w ↦
                  let few_free = tally-le frees busy n s.place frees-le-busy in
                  let (i, hi, wi) =
                    tally-find writes n s.place (ground (arith, v.v_held, v.w_held)) in
                  picked_of n i s hi (writes-Moves s.lock (s.place i) wi)
            ]
      ]
    ]
