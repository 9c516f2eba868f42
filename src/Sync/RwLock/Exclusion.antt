-- ===== src/Sync/RwLock/Exclusion.antt =====
-- What the lock of src/kernel_sync_primitives.c keeps apart, and where a downgrade breaks it.
use unstable_os.Base.{
  Bool-cases, arith, eqb_false→ne, inl, inr, refl, sym, true, ℕ, ◌+◌, ◌<◌, ◌==◌, ◌^◌, ◌≡◌, ◌≢◌,
}
use unstable_os.Sync.Threads.{set_at, tally-one, tally-sum, tally-two}
use unstable_os.Sync.RwLock.{
  AnyStep, Move, Place, Reach, RwLock, System, count_first, count_other, down, downgrade,
  downgraded, give_v, give_v_again, give_w, leaving, pick, plain, reading, take_v, take_v_again,
  take_w, uncount_last, uncount_other, unwrite, waiting, write, writing,
}
use unstable_os.Sync.RwLock.Counts.{Reach-Inv, busy, counted, counted-sum, shares, waits, writes}

-- With fewer than `2 ^ 32` threads and no downgrade, no thread reads or writes while another writes.
pub Reach-exclusive :
    (n i j : ℕ) (s : System)
    → n < 2 ^ 32
    → Reach n s
    → i < n
    → j < n
    → i ≢ j
    → s.place i ≡ writing
    → (s.place j ≢ writing) × (s.place j ≢ reading)
Reach-exclusive n i j s few r hi hj ne w =
    let v = Reach-Inv few r in
    let one = tally-one writes n i s.place hi in
    let two = tally-two writes n i j s.place hi hj ne in
    let reader = tally-one shares n j s.place hj in
    let both = tally-sum waits shares counted n s.place counted-sum in
    let wi : writes (s.place i) ≡ 1 = rw w refl in
    (
      λ h. let wj : writes (s.place j) ≡ 1 = rw h refl in ground (arith, v.w_held),
      λ h.
          let sj : shares (s.place j) ≡ 1 = rw h refl in
          ground (arith, v.w_held, v.readers, v.alone),
    )

-- A thread that releases the lock for reading never finds the count of readers at 0: the panic of
-- `rw_spinlock_release_read` is not reached.
pub Reach-counted :
    (n i : ℕ) (s : System) → n < 2 ^ 32 → Reach n s → i < n → s.place i ≡ leaving → s.lock.value ≢ 0
Reach-counted n i s few r hi at =
    let v = Reach-Inv few r in
    let one = tally-one counted n i s.place hi in
    let ci : counted (s.place i) ≡ 1 = rw at refl in omega (arith, v.readers, one, ci)

-- Where a thread writes and the first reader waits for it, every other thread is outside or reading.
no_Move :
    (m m' : RwLock) (p q : Place)
    → m.vlock ≡ true
    → m.wlock ≡ true
    → busy p + writes p ≡ 0
    → Move m p m' q
    → ⊥
no_Move m m' p q v w b (take_v h) = ground arith
no_Move m m' p q v w b (count_other h) = ground arith
no_Move m m' p q v w b (count_first h) = ground arith
no_Move m m' p q v w b (take_w h) = ground arith
no_Move m m' p q v w b give_v = ground arith
no_Move m m' p q v w b (take_v_again h) = ground arith
no_Move m m' p q v w b (uncount_other h k) = ground arith
no_Move m m' p q v w b (uncount_last h k) = ground arith
no_Move m m' p q v w b give_w = ground arith
no_Move m m' p q v w b give_v_again = ground arith
no_Move m m' p q v w b (write h) = ground arith
no_Move m m' p q v w b unwrite = ground arith

-- The facts behind a downgrade: nobody is on the way out, and nobody writes.
quiet :
    (n i j : ℕ) (s : System)
    → n < 2 ^ 32
    → Reach n s
    → i < n
    → j < n
    → s.place i ≡ writing
    → s.place j ≡ waiting
    → (s.lock.vlock ≡ true)
      × (s.lock.wlock ≡ true)
      × ((k : ℕ)
          → k < n
          → busy (set_at i reading s.place k) + writes (set_at i reading s.place k) ≡ 0)
quiet n i j s few r hi hj wr wt =
    let v = Reach-Inv few r in
    let one = tally-one writes n i s.place hi in
    let first = tally-one waits n j s.place hj in
    let wi : writes (s.place i) ≡ 1 = rw wr refl in
    let wj : waits (s.place j) ≡ 1 = rw wt refl in
    (
      ground (arith, v.v_held),
      ground (arith, v.w_held),
      λ k hk.
          let bk = tally-one busy n k s.place hk in
          elim (Bool-cases (k == i)) [
            | inl e ↦ rw e refl
            | inr e ↦
                let two = tally-two writes n i k s.place hi hk (λ q. eqb_false→ne k i e (sym q)) in
                rw e (ground (arith, v.v_held, v.w_held))
          ],
    )

-- If a writer downgrades while the first reader waits for it, no thread can take any further step: the
-- reader waits for the write lock with `vlock` held, and the writer that has become a reader needs
-- `vlock` to give the write lock back.
pub downgrade_stuck :
    (n i j : ℕ) (s t : System)
    → n < 2 ^ 32
    → Reach n s
    → i < n
    → j < n
    → s.place i ≡ writing
    → s.place j ≡ waiting
    → ¬ AnyStep n (downgraded i s) t
unfolding downgrade
downgrade_stuck n i j s t few r hi hj wr wt (plain (pick k {m} {p} lt mv)) =
    let q = quiet n i j s few r hi hj wr wt in
    no_Move (downgrade s.lock) m _ p q.0 q.1 (q.2 k lt) mv
downgrade_stuck n i j s t few r hi hj wr wt (down k lt e) =
    let q = quiet n i j s few r hi hj wr wt in
    let w : writes (set_at i reading s.place k) ≡ 1 = rw e refl in omega (arith, q.2 k lt, w)
