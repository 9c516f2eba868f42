-- ===== src/Sync/Semaphore.antt =====
-- The semaphores of src/kernel_sync_primitives.c. The kernel's own, semaphore_wait and semaphore_post,
-- spin by rescheduling; those of the system calls, sys_sem_wait and sys_sem_post, have a queue of
-- sleeping threads. A thread may post without having waited before.
use unstable_os.Base.{
  Bool-cases, List, [], ap, arith, eqb_false→ne, eqb_refl, eqb→eq, inl, inr, ne→eqb_false, refl,
  sym, ℕ, ◌%◌, ◌++◌, ◌+◌, ◌-◌, ◌<◌, ◌==◌, ◌^◌, ◌∙◌, ◌∷◌, ◌≡◌, ◌≢◌, ◌≤◌,
}
use unstable_os.Sync.Threads.{set_at, set_at_self}

pub data Kind : Type 0 where
  spinning queueing : Kind

-- Where a thread is: in no call, about to read the value, with the value that it has read, asleep in the
-- queue, and behind the addition of a post.
pub data Place : Type 0 where
  outside trying sleeping posting : Place
  loaded : ℕ → Place

-- The semaphore and the threads; `waits` and `posts` count the waits that have come to an end and the
-- additions of the posts.
pub record System : Type 0 where
  pub value : ℕ
  pub queue : List ℕ
  pub place : ℕ → Place
  pub waits : ℕ
  pub posts : ℕ

abbrev pub goes : ℕ → Place → System → System
goes i p s = record s { place = set_at i p s.place }

-- A step of thread `i`.
pub data Move (k : Kind) (n i : ℕ) (s : System) : System → Type 0 where
  call : s.place i ≡ outside → Move k n i s (goes i trying s)
  load : s.place i ≡ trying → Move k n i s (goes i (loaded s.value) s)
  swap :
      {v : ℕ}
      → s.place i ≡ loaded v
      → v ≢ 0
      → s.value ≡ v
      → Move k n i s (goes i outside (record s { value = v - 1; waits = s.waits + 1 }))
  swap_fails : {v : ℕ} → s.place i ≡ loaded v → v ≢ 0 → s.value ≢ v → Move k n i s (goes i trying s)
  again : k ≡ spinning → s.place i ≡ loaded 0 → Move k n i s (goes i trying s)
  sleep :
      k ≡ queueing
      → s.place i ≡ loaded 0
      → Move k n i s (goes i sleeping (record s { queue = s.queue ++ (i ∷ []) }))
  post :
      s.place i ≡ outside
      → Move k n i s
          (goes i posting (record s { value = (s.value + 1) % 2 ^ 32; posts = s.posts + 1 }))
  wake_none : s.place i ≡ posting → s.queue ≡ [] → Move k n i s (goes i outside s)
  wake :
      {j : ℕ} {q : List ℕ}
      → s.place i ≡ posting
      → s.queue ≡ j ∷ q
      → j < n
      → s.place j ≡ sleeping
      → Move k n i s (goes i outside (goes j trying (record s { queue = q })))

pub data Reach (k : Kind) (n permits : ℕ) : System → Type 0 where
  start :
      Reach k n permits
        (record { value = permits; queue = []; place = λ i. outside; waits = 0; posts = 0 })
  later :
      {s t : System} {i : ℕ} → Reach k n permits s → i < n → Move k n i s t → Reach k n permits t

-- The value and the waits that have passed make up the permits and the posts.
IsCounted : ℕ → System → Type 0
IsCounted permits s = s.value + s.waits ≡ permits + s.posts

Move-posts : {k : Kind} {n i : ℕ} {s t : System} → Move k n i s t → s.posts ≤ t.posts
Move-posts (call e) = omega arith
Move-posts (load e) = omega arith
Move-posts (swap e nz q) = omega arith
Move-posts (swap_fails e nz q) = omega arith
Move-posts (again c e) = omega arith
Move-posts (sleep c e) = omega arith
Move-posts (post e) = omega arith
Move-posts (wake_none e q) = omega arith
Move-posts (wake e f g w) = omega arith

Move-IsCounted :
    {k : Kind} {n i : ℕ} {s t : System} (permits : ℕ)
    → permits + t.posts < 2 ^ 32
    → IsCounted permits s
    → Move k n i s t
    → IsCounted permits t
unfolding IsCounted
Move-IsCounted permits few h (call e) = h
Move-IsCounted permits few h (load e) = h
Move-IsCounted permits few h (swap e nz q) = omega (arith, h, nz, q)
Move-IsCounted permits few h (swap_fails e nz q) = h
Move-IsCounted permits few h (again c e) = h
Move-IsCounted permits few h (sleep c e) = h
Move-IsCounted permits few h (post e) = omega (arith, h, few)
Move-IsCounted permits few h (wake_none e q) = h
Move-IsCounted permits few h (wake e f g w) = h

Reach-IsCounted :
    {k : Kind} {n permits : ℕ} {s : System}
    → permits + s.posts < 2 ^ 32
    → Reach k n permits s
    → IsCounted permits s
unfolding IsCounted
Reach-IsCounted few start = refl
Reach-IsCounted {permits = permits} few (later r lt mv) =
    let kept = Move-posts mv in
    Move-IsCounted permits few (Reach-IsCounted (omega (arith, few, kept)) r) mv

-- However the steps of the threads are ordered, whether a thread posts after a wait or without one, as
-- long as the permits at first and the posts together stay below 2 ^ 32: no more waits have come to an
-- end than there were permits and posts, and the value is what is left, without a wrap.
pub Reach-bounded :
    (k : Kind) (n permits : ℕ) (s : System)
    → permits + s.posts < 2 ^ 32
    → Reach k n permits s
    → (s.waits ≤ permits + s.posts) × (s.value ≡ permits + s.posts - s.waits)
unfolding IsCounted
Reach-bounded k n permits s few r =
    let h = Reach-IsCounted few r in (omega (arith, h), omega (arith, h))

-- A thread that has read the value 0 in `sys_sem_wait` may fall asleep behind a post that found nobody
-- in the queue. If no thread was in a post before, it then sleeps alone in the queue though the value is 1,
-- no thread is in a post that could wake it, and the threads other than it and the posting one are where
-- they were.
pub wake_up_lost :
    (n permits i j : ℕ) (s : System)
    → Reach queueing n permits s
    → i < n
    → j < n
    → i ≢ j
    → s.value ≡ 0
    → s.queue ≡ []
    → s.place i ≡ trying
    → s.place j ≡ outside
    → ((l : ℕ) → s.place l ≢ posting)
    → (t : System) × Reach queueing n permits t
      × (t.value ≡ 1)
      × (t.queue ≡ i ∷ [])
      × (t.place i ≡ sleeping)
      × ((l : ℕ) → t.place l ≢ posting)
      × ((l : ℕ) → l ≢ i → t.place l ≡ s.place l)
wake_up_lost n permits i j s r hi hj ne none_left empty ei ej quiet =
    let ij = ne→eqb_false i j ne in
    let ji = ne→eqb_false j i (λ x. ne (sym x)) in
    let s1 = goes i (loaded s.value) s in
    let s2 = goes j posting (record s1 { value = (s1.value + 1) % 2 ^ 32; posts = s1.posts + 1 }) in
    let s3 = goes j outside s2 in
    let s4 = goes i sleeping (record s3 { queue = s3.queue ++ (i ∷ []) }) in
    let r1 = later r hi (load ei) in
    let r2 = later r1 hj (post (rw ji ej)) in
    let r3 = later r2 hj (wake_none (set_at_self j posting s1.place) empty) in
    let at : s3.place i ≡ loaded 0 = rw (ij, eqb_refl i) (ap loaded none_left) in
    let others : (l : ℕ) → l ≢ i → s4.place l ≡ s.place l = λ l a.
      rw (ne→eqb_false l i a) (elim (Bool-cases (l == j)) [
        | inl e ↦ rw e (sym ej ∙ sym (ap s.place (eqb→eq l j e)))
        | inr e ↦ rw e refl
      ]) in
    (
      s4,
      later r3 hi (sleep refl at),
      rw none_left refl,
      ap (λ q. q ++ (i ∷ [])) empty,
      set_at_self i sleeping s3.place,
      λ l. elim (Bool-cases (l == i)) [
        | inl e ↦ rw e (λ x. cc)
        | inr e ↦ λ x. quiet l (sym (others l (eqb_false→ne l i e)) ∙ x)
      ],
      others,
    )
