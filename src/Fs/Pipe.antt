-- ===== src/Fs/Pipe.antt =====
-- The pipe of src/fs/pipe.c: a ring of bytes, its reader and writer counts, and the calls that put
-- and get bytes. A thread that goes to sleep releases the pipe's lock, so what it finds when it runs
-- again is a `Wake` of the schedule; without one it stays asleep. The calls on thread queues and
-- signals are recorded in order as effects.
pub mod Ring
pub mod Write
pub mod Read
pub mod Open
pub mod Schedule
mod Tests
use unstable_os.Base.{
  Bool, List, [], false, if◌then◌else◌, leb, set, true, ℕ, ◌%◌, ◌&&◌, ◌++◌, ◌+◌, ◌-◌, ◌==◌, ◌^◌,
  ◌||◌, ◌∷◌,
}

abbrev pub pipe_buf : ℕ
pipe_buf = 2048

-- `struct pipe`. `size_t` is a 32-bit word; the locks are held by the caller throughout.
pub record Pipe : Type 0 where
  pub pipe_fifo : List ℕ
  pub head : ℕ
  pub tail : ℕ
  pub readers : ℕ
  pub writers : ℕ
  pub named_wait : Bool

-- The macros EMPTY, FULL, INC and DEC.
unfoldable pub empty : Pipe → Bool
empty p = p.head == p.tail

unfoldable pub full : Pipe → Bool
full p = (p.head == 0 && p.tail == pipe_buf - 1) || p.tail == (p.head + (2 ^ 32 - 1)) % 2 ^ 32

-- REMAIN: how many bytes are in the ring.
unfoldable pub remain : Pipe → ℕ
remain p = if leb p.head p.tail then p.tail - p.head else pipe_buf - p.head + p.tail

unfoldable pub put_byte : ℕ → Pipe → Pipe
put_byte c p = record p { pipe_fifo = set p.pipe_fifo p.tail c; tail = (p.tail + 1) % pipe_buf }

unfoldable pub drop_byte : Pipe → Pipe
drop_byte p = record p { head = (p.head + 1) % pipe_buf }

-- Calls on the two thread queues of the pipe, and SIGPIPE to the caller.
pub data Effect : Type 0 where
  wake_reader wake_writer wake_all_readers wake_all_writers : Effect
  join_readers join_writers : Effect
  sigpipe : Effect

-- What a thread sees: the pipe, whether `check_eintr` reports a signal, what it has done so far.
pub record View : Type 0 where
  pub pipe : Pipe
  pub signal : Bool
  pub effects : List Effect

-- The pipe and the pending signals when a sleeping thread runs again.
pub record Wake : Type 0 where
  pub pipe : Pipe
  pub signal : Bool

unfoldable pub note : Effect → View → View
note e v = record v { effects = v.effects ++ (e ∷ []) }

unfoldable pub resume : Wake → View → View
resume w v = record v { pipe = w.pipe; signal = w.signal }

-- A run returns with the rest of the schedule, or is asleep when the schedule ends.
pub data Run (A : Type 0) : Type 0 where
  done : A → View → List Wake → Run A
  asleep : View → Run A
  out_of_fuel : Run A

-- `while (pq->named_wait)`: true if a signal ended the wait. `join` is the queue that the thread joins.
unfoldable pub await_ends : Effect → List Wake → View → Run Bool
await_ends join [] v =
    if v.pipe.named_wait
    then if v.signal then done true v [] else asleep (note join v)
    else done false v []
await_ends join (w ∷ ws) v =
    let rest = await_ends join ws (resume w (note join v)) in
    if v.pipe.named_wait
    then if v.signal then done true v (w ∷ ws) else rest
    else done false v (w ∷ ws)

-- What follows `while (pq->named_wait)`: `cut` if a signal ended it, else the rest of the call.
unfoldable pub after_wait : {A : Type 0} → A → (List Wake → View → Run A) → Run Bool → Run A
after_wait cut rest (done true v ws) = done cut v ws
after_wait cut rest (done false v ws) = rest ws v
after_wait cut rest (asleep v) = asleep v
after_wait cut rest out_of_fuel = out_of_fuel
