-- ===== src/Process/ThreadQueue/Lost.antt =====
-- What the queues of src/kernel_sched_queue.c hold behind a wake-up and an addition.
use unstable_os.Base.{
  List, Option, [], arith, eqb_refl, false, ne→eqb_false, none, refl, some, suc, true, zero, ℕ, ◌+◌,
  ◌-◌, ◌<◌, ◌==◌, ◌^◌, ◌∷◌, ◌≡◌, ◌≢◌,
}
use unstable_os.Process.Thread.{Threads, modify, runnable}
use unstable_os.Process.ThreadQueue.{
  Heap, Node, Queue, add, hold, no_node, put, unblock, waiter, wake_first,
}

abbrev pub listed : Option Node → (Option ℕ → List ℕ) → List ℕ
listed none rest = []
listed (some n) rest = n.thread ∷ rest n.next

-- The threads that wait, in the order of the links from an address, as many as the fuel.
abbrev pub waiters_from : ℕ → Option ℕ → Heap → List ℕ
waiters_from zero a h = []
waiters_from (suc fuel) none h = []
waiters_from (suc fuel) (some a) h = listed (h a) (λ b. waiters_from fuel b h)

-- The only node of a queue to which a thread has been added.
abbrev pub alone : ℕ → ℕ → Threads → Node
alone process thread ts = record {
  parent_process = process;
  thread = thread;
  magic_queue_value = (ts thread).magic_queue_value;
  prev = some 0;
  next = none;
}

-- A thread with a hold, and with room for one more, that is added to an empty queue is the one that the next wake-up makes runnable. The queue
-- is empty again, and the thread has the holds that it had.
pub unblock-add :
    (fuel new process thread : ℕ) (q : Queue)
    → q.heap 0 ≡ some no_node
    → process ≢ 0
    → 0 < (q.threads thread).instances
    → (q.threads thread).instances < 2 ^ 32 - 2
    → (q1 : Queue) × (q2 : Queue) × (add new process thread q ≡ some q1)
      × (unblock (suc fuel) q1 ≡ some q2)
      × ((q2.threads thread).status ≡ runnable)
      × ((q2.threads thread).instances ≡ (q.threads thread).instances)
      × (q2.heap 0 ≡ some no_node)
unfolding add unblock wake_first
unblock-add fuel new process thread q empty named held room =
    let few : ((q.threads thread).instances + 1 == 2 ^ 32 - 1) ≡ false = ground arith in
    let self = eqb_refl thread in
    let more : ((q.threads thread).instances + 1 - 1 == 0) ≡ false = ground arith in
    let n : Node = alone process thread q.threads in
    let q1 : Queue = record {
      heap = put 0 (some n) q.heap;
      threads = modify thread hold q.threads;
    } in
    let q2 : Queue = record {
      heap = put 0 (some no_node) q1.heap;
      threads = wake_first n q1.threads;
    } in
    let magic : ((q.threads thread).magic_queue_value == (q1.threads thread).magic_queue_value)
        ≡ true =
      rw self (eqb_refl (q.threads thread).magic_queue_value) in
    (
      q1,
      q2,
      rw (few, empty) refl,
      rw (ne→eqb_false process 0 named, magic) refl,
      rw (magic, self) (rw more refl),
      rw (magic, self) (rw more (omega arith)),
      refl,
    )

-- In a queue of at least three threads, of which the first still waits and the second is in a node `m`
-- whose `prev` is the first node, a wake-up leaves the second and those behind it. A thread with room
-- for one more hold that is added then takes the place of all those behind the second: the queue has
-- only these two.
pub add-unblock :
    (fuel k new process thread a c : ℕ) (n m : Node) (q : Queue)
    → q.heap 0 ≡ some n
    → q.heap a ≡ some m
    → n.parent_process ≢ 0
    → m.parent_process ≢ 0
    → n.next ≡ some a
    → m.next ≡ some c
    → m.prev ≡ some 0
    → n.magic_queue_value ≡ (q.threads n.thread).magic_queue_value
    → new ≢ 0
    → a ≢ 0
    → (wake_first n q.threads thread).instances < 2 ^ 32 - 2
    → (q1 : Queue) × (q2 : Queue) × (unblock (suc fuel) q ≡ some q1)
      × (waiters_from (suc k) (some 0) q1.heap ≡ m.thread ∷ waiters_from k (some c) q1.heap)
      × (add new process thread q1 ≡ some q2)
      × (waiters_from (suc (suc (suc k))) (some 0) q2.heap ≡ m.thread ∷ (thread ∷ []))
unfolding add unblock
add-unblock fuel k new process thread a c n m q hn hm pn pm nn mn mp magic fresh na room =
    let ts = wake_first n q.threads in
    let waits : (n.magic_queue_value == (q.threads n.thread).magic_queue_value) ≡ true =
      ground arith in
    let apart : (0 == a) ≡ false = ground arith in
    let few : ((ts thread).instances + 1 == 2 ^ 32 - 1) ≡ false = ground arith in
    let q1 : Queue = record { heap = put a none (put 0 (some m) q.heap); threads = ts } in
    let q2 : Queue = record {
      heap = put 0 (some (record m { next = some new; prev = some new })) (
          put new (some (waiter process thread ts (some 0)))
            (put 0 (some (record m { next = some new })) q1.heap));
      threads = modify thread hold ts;
    } in
    (
      q1,
      q2,
      rw (hn, ne→eqb_false n.parent_process 0 pn, nn, hm, waits) refl,
      rw (apart, mn) refl,
      rw (few, apart, ne→eqb_false m.parent_process 0 pm, mp) (rw apart refl),
      rw (ne→eqb_false new 0 fresh, eqb_refl new) refl,
    )
