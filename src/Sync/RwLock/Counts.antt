-- ===== src/Sync/RwLock/Counts.antt =====
-- How the fields of the lock of src/kernel_sync_primitives.c follow from where the threads are.
use unstable_os.Base.{
  Bool, arith, false, if◌then◌else◌, inl, refl, true, ℕ, ◌%◌, ◌+◌, ◌-◌, ◌<◌, ◌==◌, ◌^◌, ◌≡◌, ◌≢◌,
  ◌≤◌, ◌⊎◌,
}
use unstable_os.Sync.Threads.{
  set_at, tally, tally-le, tally-le-bound, tally-one, tally-set_at, tally-sum, tally-zero,
}
use unstable_os.Sync.RwLock.{
  Move, Place, Reach, RwLock, System, count_first, count_other, entered, entering, freeing, give_v,
  later, leaving, left, outside, pick, reading, start, take_v, take_v_again, take_w, uncount_last,
  uncount_other, unlocked, waiting, write, writing,
}

abbrev pub waits : Place → ℕ
waits waiting = 1
waits _ = 0

-- The threads with `vlock` that do not wait for `wlock`.
abbrev pub busy : Place → ℕ
busy entering = 1
busy entered = 1
busy leaving = 1
busy freeing = 1
busy left = 1
busy _ = 0

abbrev pub counted : Place → ℕ
counted waiting = 1
counted entered = 1
counted reading = 1
counted leaving = 1
counted _ = 0

-- The counted ones that do not wait.
abbrev pub shares : Place → ℕ
shares entered = 1
shares reading = 1
shares leaving = 1
shares _ = 0

abbrev pub writes : Place → ℕ
writes writing = 1
writes _ = 0

abbrev pub frees : Place → ℕ
frees freeing = 1
frees _ = 0

abbrev pub bit : Bool → ℕ
bit true = 1
bit false = 0

-- The readers own `wlock` together while there are some and the first does not wait for it.
abbrev pub owned : ℕ → ℕ → ℕ
owned v k = if v == 0 then 0 else if k == 0 then 1 else 0

pub record Inv (n : ℕ) (m : RwLock) (f : ℕ → Place) : Type 0 where
  pub few : n < 2 ^ 32
  pub v_held : tally waits n f + tally busy n f ≡ bit m.vlock
  pub readers : tally counted n f ≡ m.value
  -- The first reader waits alone.
  pub alone : (tally waits n f ≡ 0) ⊎ (tally shares n f ≡ 0)
  pub w_held : tally writes n f + tally frees n f + owned m.value (tally waits n f) ≡ bit m.wlock

-- Thread `i` goes from `p` to `q`.
pub record Moved (n i : ℕ) (f : ℕ → Place) (p q : Place) : Type 0 where
  pub waits_by : tally waits n (set_at i q f) + waits p ≡ tally waits n f + waits q
  pub busy_by : tally busy n (set_at i q f) + busy p ≡ tally busy n f + busy q
  pub counted_by : tally counted n (set_at i q f) + counted p ≡ tally counted n f + counted q
  pub writes_by : tally writes n (set_at i q f) + writes p ≡ tally writes n f + writes q
  pub frees_by : tally frees n (set_at i q f) + frees p ≡ tally frees n f + frees q
  pub room : tally counted n (set_at i q f) ≤ n
  pub apart : tally frees n f ≤ tally busy n f
  pub here : busy p ≤ tally busy n f
  pub shares_by : tally shares n (set_at i q f) + shares p ≡ tally shares n f + shares q
  pub both : tally waits n f + tally shares n f ≡ tally counted n f

counted-le : (p : Place) → counted p ≤ 1
counted-le p = ground arith

pub frees-le-busy : (p : Place) → frees p ≤ busy p
frees-le-busy p = ground arith

pub counted-sum : (p : Place) → waits p + shares p ≡ counted p
counted-sum p = ground arith

pub moved : (n i : ℕ) (f : ℕ → Place) (q : Place) → i < n → Moved n i f (f i) q
moved n i f q h = record {
  waits_by = tally-set_at waits n i q f h;
  busy_by = tally-set_at busy n i q f h;
  counted_by = tally-set_at counted n i q f h;
  writes_by = tally-set_at writes n i q f h;
  frees_by = tally-set_at frees n i q f h;
  room = tally-le-bound counted n (set_at i q f) counted-le;
  apart = tally-le frees busy n f frees-le-busy;
  here = tally-one busy n i f h;
  shares_by = tally-set_at shares n i q f h;
  both = tally-sum waits shares counted n f counted-sum;
}

-- What a step needs.
abbrev Guard : {m m' : RwLock} {p q : Place} → Move m p m' q → Type 0
Guard {m} (take_v h) = m.vlock ≡ false
Guard {m} (count_other h) = (m.value + 1) % 2 ^ 32 ≢ 1
Guard {m} (count_first h) = (m.value + 1) % 2 ^ 32 ≡ 1
Guard {m} (take_w h) = m.wlock ≡ false
Guard {m} (take_v_again h) = m.vlock ≡ false
Guard {m} (uncount_other h k) = (m.value ≢ 0) × (m.value - 1 ≢ 0)
Guard {m} (uncount_last h k) = (m.value ≢ 0) × (m.value - 1 ≡ 0)
Guard {m} (write h) = m.wlock ≡ false
Guard _ = Unit

guard : {m m' : RwLock} {p q : Place} (mv : Move m p m' q) → Guard mv
guard (take_v h) = h
guard (count_other h) = h
guard (count_first h) = h
guard (take_w h) = h
guard (take_v_again h) = h
guard (uncount_other h k) = (h, k)
guard (uncount_last h k) = (h, k)
guard (write h) = h
guard _ = tt

pub Move-Inv :
    {n i : ℕ} {m m' : RwLock} {f : ℕ → Place} {p q : Place}
    → Move m p m' q
    → Moved n i f p q
    → Inv n m f
    → Inv n m' (set_at i q f)
Move-Inv give_v d v = record {
  few = v.few;
  v_held = ground arith;
  readers = ground arith;
  alone = ground arith;
  w_held = ground arith;
}
Move-Inv mv d v = record {
  few = v.few;
  v_held = ground (arith, guard mv);
  readers = ground (arith, guard mv);
  alone = ground (arith, guard mv);
  w_held = ground (arith, guard mv);
}

Inv-unlocked : (n : ℕ) → n < 2 ^ 32 → Inv n unlocked.lock unlocked.place
Inv-unlocked n h = record {
  few = h;
  v_held = omega (
    arith,
    tally-zero waits n (λ i. outside) (λ i. refl),
    tally-zero busy n (λ i. outside) (λ i. refl),
  );
  readers = tally-zero counted n (λ i. outside) (λ i. refl);
  alone = inl (tally-zero waits n (λ i. outside) (λ i. refl));
  w_held = omega (
    arith,
    tally-zero writes n (λ i. outside) (λ i. refl),
    tally-zero frees n (λ i. outside) (λ i. refl),
  );
}

pub Reach-Inv : {n : ℕ} {s : System} → n < 2 ^ 32 → Reach n s → Inv n s.lock s.place
Reach-Inv {n} h start = Inv-unlocked n h
Reach-Inv {n} h (later {s} r (pick i {m} {p} lt mv)) =
    Move-Inv mv (moved n i s.place p lt) (Reach-Inv h r)
