-- ===== src/Process/Futex.antt =====
-- Futexes, src/futex.c: threads of one process that wait until a word of its memory is woken.
-- `scheduler_lock` and `futex_lock` are held over each part, so each is one step: what comes before a
-- thread sleeps, and what it does when it runs again.
pub mod Wake
pub mod Wait
mod Tests
use unstable_os.Base.{
  Bool, Errno, List, Option, Outcome, [], eagain, edeadlk, efault, eintr, einval, eownerdead, err,
  etimedout, false, if◌then◌else◌, leb, ltb, negative, none, not, ok, some, true, ℕ, ◌!=◌, ◌%◌,
  ◌&&◌, ◌+◌, ◌-◌, ◌==◌, ◌^◌, ◌||◌, ◌∷◌,
}
use unstable_os.Process.Thread.{Status, interr_sleep, runnable}

-- The fields of `thread_t` that futex.c uses. The threads of a process are a list.
pub record Waiter : Type 0 where
  pub tid : ℕ
  pub status : Status
  pub futex_addr : ℕ
  pub futex_owner : ℕ
  pub is_waiting_on_futex : Bool
  pub owner_dead : Bool

abbrev pub long_max : ℕ
long_max = 2 ^ 31 - 1

abbrev pub waits_on : ℕ → Waiter → Bool
waits_on addr t = t.is_waiting_on_futex && t.futex_addr == addr

-- The loop of `futex_wake`: the threads, and `waked_up_threads` when it ends.
unfoldable pub wake_loop : ℕ → ℕ → ℕ → List Waiter → List Waiter × ℕ
wake_loop addr most woken [] = ([], woken)
wake_loop addr most woken (t ∷ ts) =
    let t' : Waiter = record t { is_waiting_on_futex = false; status = runnable } in
    let go_on = wake_loop addr most (woken + 1) ts in
    let rest = wake_loop addr most woken ts in
    if waits_on addr t
    then if leb most (woken + 1) then (t' ∷ ts, woken + 1) else (t' ∷ go_on.0, go_on.1)
    else (t ∷ rest.0, rest.1)

unfoldable pub futex_wake : ℕ → ℕ → List Waiter → List Waiter × ℕ
unfolding wake_loop
futex_wake addr wakeup_count ts =
    if wakeup_count == 0
    then (ts, 0)
    else wake_loop addr (if ltb long_max wakeup_count then long_max else wakeup_count) 0 ts

unfoldable pub futex_wake_owner_dead : ℕ → List Waiter → List Waiter
futex_wake_owner_dead tid [] = []
futex_wake_owner_dead tid (t ∷ ts) =
    (if t.is_waiting_on_futex && t.futex_owner == tid
      then record t { owner_dead = true; is_waiting_on_futex = false; status = runnable }
      else t)
    ∷ futex_wake_owner_dead tid ts

unfoldable pub has_tid : ℕ → List Waiter → Bool
has_tid tid [] = false
has_tid tid (t ∷ ts) = t.tid == tid || has_tid tid ts

-- What the fields of the calling thread become when it starts to wait.
unfoldable pub start_waiting : ℕ → ℕ → ℕ → Bool → List Waiter → List Waiter
start_waiting me addr owner timed [] = []
start_waiting me addr owner timed (t ∷ ts) =
    (if t.tid == me
      then record t {
        owner_dead = false;
        futex_owner = owner;
        futex_addr = addr;
        is_waiting_on_futex = true;
        status = if timed then t.status else interr_sleep;
      }
      else t)
    ∷ start_waiting me addr owner timed ts

-- The call returned, or the thread goes to sleep, with a timeout or without.
pub data Begun : Type 0 where
  returned : Outcome → Begun
  asleep_for : ℕ × ℕ → List Waiter → Begun
  asleep : List Waiter → Begun

abbrev pub known_clock : ℕ → Bool
known_clock clock = clock == 0 || clock == 1

pub record WaitArgs : Type 0 where
  pub addr : ℕ
  -- The word at the address, and the word that the caller expects there.
  pub value : ℕ
  pub expected : ℕ
  -- The 32-bit word of a `pid_t`.
  pub owner : ℕ
  -- Seconds and nanoseconds, and whether the whole structure may be read.
  pub timeout : Option (ℕ × ℕ)
  pub readable : Bool
  pub clock : ℕ

abbrev pub is_some : Option (ℕ × ℕ) → Bool
is_some none = false
is_some (some _) = true

abbrev pub is_zero : Option (ℕ × ℕ) → Bool
is_zero none = false
is_zero (some (sec, nsec)) = nsec == 0 && sec == 0

-- `process->threads->next == NULL`
abbrev pub is_alone : List Waiter → Bool
is_alone (t ∷ (u ∷ ts)) = false
is_alone _ = true

-- The locked part of `futex_wait`.
unfoldable pub wait_locked : ℕ → WaitArgs → List Waiter → Begun
unfolding start_waiting
wait_locked me a ts = if a.value != a.expected then returned (err eagain) else elim a.timeout [
  | none ↦ asleep (start_waiting me a.addr a.owner false ts)
  | some d ↦ asleep_for d (start_waiting me a.addr a.owner true ts)
]

-- `futex_wait` up to the sleep, for the thread `me` of a process with the threads `ts`.
unfoldable pub wait_begin : ℕ → WaitArgs → List Waiter → Begun
unfolding has_tid wait_locked
wait_begin me a ts =
    if negative a.owner
    then returned (err einval)
    else if is_some a.timeout && not (known_clock a.clock)
    then returned (err einval)
    else if is_alone ts
    then returned (err edeadlk)
    else if ltb 0 a.owner && not (has_tid a.owner ts)
    then returned (err eownerdead)
    else if is_some a.timeout && not a.readable
    then returned (err efault)
    else if is_zero a.timeout
    then returned (ok 0)
    else wait_locked me a ts

-- How `sys_clock_nanosleep` came back: 0, -EINTR or another error.
pub data Slept : Type 0 where
  elapsed interrupted : Slept
  failed : Errno → Slept

-- `current_thread->is_waiting_on_futex = 0`
unfoldable pub stop_waiting : ℕ → List Waiter → List Waiter
stop_waiting me [] = []
stop_waiting me (t ∷ ts) =
    (if t.tid == me then record t { is_waiting_on_futex = false } else t) ∷ stop_waiting me ts

unfoldable pub owner_dead_of : ℕ → List Waiter → Bool
owner_dead_of me [] = false
owner_dead_of me (t ∷ ts) = if t.tid == me then t.owner_dead else owner_dead_of me ts

-- `futex_wait` behind the sleep. `signal` is the result of `check_eintr`.
unfoldable pub wait_end : ℕ → Bool → List Waiter → Outcome × List Waiter
unfolding stop_waiting
wait_end me signal ts = (if signal then err eintr else ok 0, stop_waiting me ts)

unfoldable pub wait_end_timed : ℕ → ℕ → Slept → Bool → List Waiter → Outcome × List Waiter
unfolding stop_waiting owner_dead_of
wait_end_timed me owner slept signal ts = (
  elim slept [
    | elapsed ↦ err etimedout
    | interrupted ↦
        if signal
        then err eintr
        else if owner_dead_of me ts && owner != 0
        then err eownerdead
        else ok 0
    | failed e ↦ err e
  ],
  stop_waiting me ts,
)

-- `sys_futex`: a wait that has begun, or a wake that has returned. `mapped` says whether the word may
-- be read.
pub data Called : Type 0 where
  refused : Errno → Called
  wait_called : Begun → Called
  wake_called : List Waiter × ℕ → Called

unfoldable pub sys_futex : ℕ → Bool → ℕ → ℕ → WaitArgs → List Waiter → Called
unfolding wait_begin futex_wake
sys_futex me mapped op val a ts =
    if a.addr % 4 != 0
    then refused einval
    else if not mapped
    then refused efault
    else if op == 0
    then wait_called (wait_begin me (record a { expected = val }) ts)
    else if op == 1
    then wake_called (futex_wake a.addr val ts)
    else refused einval
