-- ===== src/Process/ThreadQueue.antt =====
-- The queues on which threads wait, src/kernel_sched_queue.c, on their pointers. The first node is part
-- of the queue and has the address 0; the others are taken from the heap. A read or a write of an
-- address that holds no node has no value, `none`. The lock of the queue is held throughout.
pub mod Lost
mod Tests
use unstable_os.Base.{
  Option, false, if◌then◌else◌, none, some, suc, true, zero, ℕ, ◌+◌, ◌-◌, ◌==◌, ◌^◌,
}
use unstable_os.Process.Thread.{Thread, Threads, modify, release, runnable}

-- `struct __thread_queue_inner`. The process 0 is `NULL`.
pub record Node : Type 0 where
  pub parent_process : ℕ
  pub thread : ℕ
  pub magic_queue_value : ℕ
  pub prev : Option ℕ
  pub next : Option ℕ

abbrev pub no_node : Node
no_node = record { parent_process = 0; thread = 0; magic_queue_value = 0; prev = none; next = none }

abbrev pub Heap : Type 0
Heap = ℕ → Option Node

pub record Queue : Type 0 where
  pub heap : Heap
  pub threads : Threads

abbrev pub put : ℕ → Option Node → Heap → Heap
put a n h b = if b == a then n else h b

-- A write to the node at an address.
abbrev pub write_node : Option Node → (Node → Node) → ℕ → Heap → Option Heap
write_node none f a h = none
write_node (some n) f a h = some (put a (some (f n)) h)

abbrev pub advance_to : ℕ → Option Node → Heap → Option Heap
advance_to a none h = none
advance_to a (some n) h = some (put a none (put 0 (some n) h))

-- The first node gives way to the next one, which is freed, or becomes empty.
abbrev pub advance : Option ℕ → Heap → Option Heap
advance none h = some (put 0 (some no_node) h)
advance (some a) h = advance_to a (h a) h

-- The thread of the first node is woken, if it still waits here.
unfoldable pub wake_first : Node → Threads → Threads
wake_first n ts =
    if n.magic_queue_value == (ts n.thread).magic_queue_value
    then modify n.thread (λ t. release (record t { status = runnable })) ts
    else modify n.thread release ts

-- `__thread_queue_unblock` behind its first test: where the thread no longer waits here, the next one
-- is tried, by `again`.
abbrev pub unblock_node : Node → Option Heap → (Queue → Option Queue) → Queue → Option Queue
unblock_node n none again q = none
unblock_node n (some h) again q =
    let q' = record q { heap = h; threads = wake_first n q.threads } in
    let rest = again q' in
    if n.magic_queue_value == (q.threads n.thread).magic_queue_value then some q' else rest

abbrev pub unblock_first : Option Node → (Queue → Option Queue) → Queue → Option Queue
unblock_first none again q = none
unblock_first (some n) again q =
    let rest = unblock_node n (advance n.next q.heap) again q in
    if n.parent_process == 0 then some q else rest

-- The fuel bounds the waiters that are looked at.
pub unblock : ℕ → Queue → Option Queue
unblock zero q = none
unblock (suc fuel) q = unblock_first (q.heap 0) (λ q'. unblock fuel q') q

-- `thread_queue_unblock_all_nonreentrant`.
pub unblock_all : ℕ → Queue → Option Queue
unfolding unblock
unblock_all zero q = none
unblock_all (suc fuel) q = elim (q.heap 0) [
  | none ↦ none
  | some n ↦ elim (n.parent_process == 0) [
    | true ↦ some q
    | false ↦ elim (unblock (suc fuel) q) [ none ↦ none | some q' ↦ unblock_all fuel q' ]
  ]
]

-- The node of a new waiter behind the node at `prev`.
abbrev pub waiter : ℕ → ℕ → Threads → Option ℕ → Node
waiter process thread ts prev = record {
  parent_process = process;
  thread = thread;
  magic_queue_value = (ts thread).magic_queue_value;
  prev = prev;
  next = none;
}

-- The node behind the last: the link from the last one, the new node, and the first node's `prev`.
abbrev pub link_last : ℕ → Node → Option Heap → Option Heap
link_last new n none = none
link_last new n (some h) =
    write_node (h 0) (λ m. record m { prev = some new }) 0 (put new (some n) h)

abbrev pub append : Node → Option ℕ → ℕ → Node → Heap → Option Heap
append first none new n h = none
append first (some last) new n h =
    link_last new n (write_node (h last) (λ m. record m { next = some new }) last h)

abbrev pub hold : Thread → Thread
hold t = record t { instances = t.instances + 1 }

abbrev pub held_by : ℕ → Queue → Option Heap → Option Queue
held_by thread q none = none
held_by thread q (some h) = some (record q { heap = h; threads = modify thread hold q.threads })

abbrev pub add_first : ℕ → ℕ → ℕ → Queue → Option Node → Option Queue
add_first new process thread q none = none
add_first new process thread q (some n) =
    let only = record n {
      parent_process = process;
      thread = thread;
      magic_queue_value = (q.threads thread).magic_queue_value;
      prev = some 0;
    } in
    if n.parent_process == 0
    then held_by thread q (some (put 0 (some only) q.heap))
    else held_by thread q (append n n.prev new (waiter process thread q.threads n.prev) q.heap)

-- `__thread_queue_add`, with the address `new` that `kalloc` returns. `kalloc` without memory panics,
-- and so does a count of holds at its limit.
pub add : ℕ → ℕ → ℕ → Queue → Option Queue
add new process thread q =
    if (q.threads thread).instances + 1 == 2 ^ 32 - 1
    then none
    else add_first new process thread q (q.heap 0)
