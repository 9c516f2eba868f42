-- ===== src/Fs/Pipe/Open.antt =====
-- Making and opening a pipe, src/fs/pipe.c.
use unstable_os.Base.{
  Bool, List, Option, Outcome, [], arith, ebusy, enomem, err, false, if◌then◌else◌, ltb, none, not,
  ok, refl, replicate, some, true, ℕ, ◌%◌, ◌&&◌, ◌+◌, ◌-◌, ◌<◌, ◌==◌, ◌^◌, ◌||◌, ◌∷◌, ◌≡◌, ◌⊎◌,
}
use unstable_os.Fs.Pipe.Ring.{contents}
use unstable_os.Fs.Pipe.{Effect, Pipe, pipe_buf, remain, wake_all_readers, wake_all_writers}

-- What `memset` and the two assignments of `sys_pipe` leave.
unfoldable pub unnamed_pipe : Pipe
unnamed_pipe = record {
  pipe_fifo = replicate pipe_buf 0;
  head = 0;
  tail = 0;
  readers = 1;
  writers = 1;
  named_wait = false;
}

-- What `open_pipe` makes for a named pipe that has none yet.
unfoldable pub named_pipe : Pipe
named_pipe = record {
  pipe_fifo = replicate pipe_buf 0;
  head = 0;
  tail = 0;
  readers = 0;
  writers = 0;
  named_wait = true;
}

abbrev pub size_max : ℕ
size_max = 2 ^ 32 - 1

abbrev pub count_in : Bool → ℕ → ℕ
count_in b n = if b then (n + 1) % 2 ^ 32 else n

-- The part of `open_pipe` under the pipe's lock, for a reader, a writer or both.
unfoldable pub open_counted : Bool → Bool → Pipe → Outcome × Pipe × List Effect
open_counted rd wr p =
    if (rd && p.readers == size_max) || (wr && p.writers == size_max)
    then (err ebusy, p, [])
    else if ltb 0 r' && ltb 0 w'
    then (
      ok 0,
      record p { readers = r'; writers = w'; named_wait = false },
      wake_all_readers ∷ wake_all_writers ∷ [],
    )
    else (ok 0, record p { readers = r'; writers = w' }, [])
  where
    r' : ℕ
    r' = count_in rd p.readers

    w' : ℕ
    w' = count_in wr p.writers

-- `open_pipe`: `memory` says whether `kalloc` finds room, `rd` and `wr` are the flags O_RDONLY and
-- O_WRONLY, and the option is `inode->pipe`.
unfoldable pub open_pipe : Bool → Bool → Bool → Option Pipe → Outcome × Option Pipe × List Effect
unfolding open_counted named_pipe
open_pipe memory rd wr o = if not (rd || wr) then (ok 0, o, []) else elim o [
  | some p ↦ let (r, p', es) = open_counted rd wr p in (r, some p', es)
  | none ↦
      if memory
      then (let (r, p', es) = open_counted rd wr named_pipe in (r, some p', es))
      else (err enomem, none, [])
]

abbrev pub one_if : Bool → ℕ
one_if b = if b then 1 else 0

abbrev both_ends : Pipe → Bool
both_ends p = ltb 0 p.readers && ltb 0 p.writers

-- Where neither count is at its limit, opening the ends of a pipe succeeds, counts the caller in at
-- each end that it asks for and at no other, ends the wait of a named pipe and wakes all sleepers
-- exactly when each end then has someone, and leaves the bytes alone.
pub open_counted-ok :
    (rd wr : Bool) (p : Pipe)
    → p.readers < size_max
    → p.writers < size_max
    → let (r, p', es) = open_counted rd wr p in
      (r ≡ ok 0)
      × (p'.readers ≡ p.readers + one_if rd)
      × (p'.writers ≡ p.writers + one_if wr)
      × (p'.named_wait ≡ (if both_ends p' then false else p.named_wait))
      × (es ≡ (if both_ends p' then wake_all_readers ∷ wake_all_writers ∷ [] else []))
      × (contents p' ≡ contents p)
unfolding open_counted remain
open_counted-ok true true p a b = ground arith
open_counted-ok true false p a b = ground arith
open_counted-ok false true p a b = ground arith
open_counted-ok false false p a b = ground arith

-- Opening an end whose count is at its limit fails with EBUSY and changes nothing.
pub open_counted-busy :
    (rd wr : Bool) (p : Pipe)
    → ((rd ≡ true) × (p.readers ≡ size_max)) ⊎ ((wr ≡ true) × (p.writers ≡ size_max))
    → open_counted rd wr p ≡ (err ebusy, p, [])
unfolding open_counted
open_counted-busy rd wr p h = ground arith

-- The first open of a named pipe by one side alone leaves it waiting for the other, and the open by
-- the other side ends the wait.
pub open_pipe_meet :
    (rd : Bool)
    → (p : Pipe) × (q : Pipe) × (open_pipe true rd (not rd) none ≡ (ok 0, some p, []))
      × (p.named_wait ≡ true)
      × (open_pipe true (not rd) rd (some p)
          ≡ (ok 0, some q, wake_all_readers ∷ wake_all_writers ∷ []))
      × (q.named_wait ≡ false)
      × (q.readers ≡ 1)
      × (q.writers ≡ 1)
unfolding open_pipe
open_pipe_meet true = (_, _, refl, refl, refl, refl, refl, refl)
open_pipe_meet false = (_, _, refl, refl, refl, refl, refl, refl)
