-- ===== src/Sync/Spinlock.antt =====
-- The spinlock of src/kernel_sync_primitives.c, on one processor once the scheduler runs. Of the flags
-- only the one that enables interrupts matters. A thread that finds the lock taken reschedules and tries
-- again: it has no step while the lock is taken.
use mathlib.Core.Path.{subst}
use unstable_os.Base.{
  Bool, Bool-cases, arith, eqb_false→ne, eqb_refl, eqb→eq, false, inl, inr, ne→eqb_false, refl, sym,
  true, ℕ, ◌+◌, ◌<◌, ◌==◌, ◌≡◌, ◌≢◌, ◌≤◌,
}
use unstable_os.Sync.Threads.{
  set_at, set_at_self, tally, tally-one, tally-set_at, tally-two, tally-zero,
}

-- `spinlock_t`
pub record Spinlock : Type 0 where
  pub state : Bool
  pub eflags : Bool

-- Where a thread is, with the flag that it runs with outside, and had when it called
-- `spinlock_acquire` inside.
pub data Place : Type 0 where
  outside trying holding : Bool → Place

-- `spinlock_acquire` saves the flag in the lock before it tries to take it, and `spinlock_release`
-- restores what is in the lock then.
pub data Move (m : Spinlock) : Place → Spinlock → Place → Type 0 where
  save : {f : Bool} → Move m (outside f) (record m { eflags = f }) (trying f)
  win : {f : Bool} → m.state ≡ false → Move m (trying f) (record m { state = true }) (holding f)
  release : {f : Bool} → Move m (holding f) (record m { state = false }) (outside m.eflags)

pub record System : Type 0 where
  pub lock : Spinlock
  pub place : ℕ → Place

pub data Step (n : ℕ) (s : System) : System → Type 0 where
  pick :
      (i : ℕ) {m : Spinlock} {p : Place}
      → i < n
      → Move s.lock (s.place i) m p
      → Step n s (record { lock = m; place = set_at i p s.place })

picked_at :
    (n i : ℕ) (s : System) (m : Spinlock) (p q : Place)
    → i < n
    → s.place i ≡ p
    → Move s.lock p m q
    → Step n s (record { lock = m; place = set_at i q s.place })
picked_at n i s m p q lt e mv = pick i lt (subst (λ x. Move s.lock x m q) (sym e) mv)

-- All threads outside, each with a flag.
abbrev pub free_lock : (ℕ → Bool) → System
free_lock f = record { lock = record { state = false; eflags = false }; place = λ i. outside (f i) }

pub data Reach (n : ℕ) (f : ℕ → Bool) : System → Type 0 where
  start : Reach n f (free_lock f)
  later : {s t : System} → Reach n f s → Step n s t → Reach n f t

abbrev holds : Place → ℕ
holds (holding f) = 1
holds _ = 0

abbrev bit : Bool → ℕ
bit true = 1
bit false = 0

-- The lock is taken exactly when one thread holds it.
Step-held :
    {n : ℕ} {s t : System}
    → Step n s t
    → tally holds n s.place ≡ bit s.lock.state
    → tally holds n t.place ≡ bit t.lock.state
Step-held {n} {s} (pick i {m} {p} lt mv) h =
    moved (s.place i) p m mv (tally-set_at holds n i p s.place lt) (tally-one holds n i s.place lt)
  where
    moved :
        (p q : Place) (m : Spinlock)
        → Move s.lock p m q
        → tally holds n (set_at i q s.place) + holds p ≡ tally holds n s.place + holds q
        → holds p ≤ tally holds n s.place
        → tally holds n (set_at i q s.place) ≡ bit m.state
    moved p q m save e k = ground (arith, h)
    moved p q m (win u) e k = ground (arith, h, u)
    moved p q m release e k = ground (arith, h)

Reach-held :
    {n : ℕ} {f : ℕ → Bool} {s : System} → Reach n f s → tally holds n s.place ≡ bit s.lock.state
Reach-held {n} {f} start = tally-zero holds n (λ i. outside (f i)) (λ i. refl)
Reach-held (later r st) = Step-held st (Reach-held r)

-- Two threads never hold the lock together.
pub Reach-unique :
    (n i j : ℕ) (f : ℕ → Bool) (s : System) (x y : Bool)
    → Reach n f s
    → i < n
    → j < n
    → s.place i ≡ holding x
    → s.place j ≡ holding y
    → i ≡ j
Reach-unique n i j f s x y r hi hj ei ej = elim (Bool-cases (i == j)) [
  | inl e ↦ eqb→eq i j e
  | inr e ↦
      let two = tally-two holds n i j s.place hi hj (eqb_false→ne i j e) in
      let wi : holds (s.place i) ≡ 1 = rw ei refl in
      let wj : holds (s.place j) ≡ 1 = rw ej refl in absurd (ground (arith, Reach-held r))
]

-- A thread that calls `spinlock_acquire` while another holds the lock leaves its own flag in it: when the
-- holder releases the lock, it goes on with the flag of the thread that waits.
pub flags_lost :
    (n i j : ℕ) (f : ℕ → Bool) (s : System) (x y : Bool)
    → Reach n f s
    → i < n
    → j < n
    → s.place i ≡ holding x
    → s.place j ≡ outside y
    → (t : System) × Reach n f t × (t.place i ≡ outside y) × (t.place j ≡ trying y)
flags_lost n i j f s x y r hi hj ei ej =
    let s1 : System = record {
      lock = record s.lock { eflags = y };
      place = set_at j (trying y) s.place;
    } in
    let s2 : System = record {
      lock = record s1.lock { state = false };
      place = set_at i (outside y) s1.place;
    } in
    let ne : i ≢ j = λ e. cc in
    let apart = ne→eqb_false i j ne in
    let at : s1.place i ≡ holding x = rw apart ei in
    (
      s2,
      later (later r (picked_at n j s _ (outside y) (trying y) hj ej save))
          (picked_at n i s1 _ (holding x) (outside y) hi at release),
      set_at_self i (outside y) s1.place,
      rw (ne→eqb_false j i (λ e. ne (sym e)), eqb_refl j) refl,
    )
