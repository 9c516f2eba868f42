-- ===== src/Process/Signals/Parts.antt =====
-- What dispatch of a signal looks at and writes in one process, src/kernel_signals.c: the parts of
-- `signal_dispatch_thread` and of the calls that tell the parent.
use mathlib.Core.Option
use unstable_os.Base.{
  Bool, Option, false, flag, if◌then◌else◌, ltb, none, not, some, true, ℕ, ◌!=◌, ◌%◌, ◌&&◌, ◌+◌,
  ◌-◌, ◌==◌, ◌^◌, ◌||◌,
}
use unstable_os.Process.Thread.{Status, dont_schedule, runnable, waiting}
use unstable_os.Process.Signals.{
  Receiver, Siginfo, SignalProcess, Table, Undefined, action_ign, change, change_thread,
  default_action, handler_of, meets, queue_remove, si_user, sig_ign, sig_mask, sigchld,
}

-- `signal_parent_stop` and the like fill the same fields.
abbrev pub child_status : ℕ → SignalProcess → Siginfo → Siginfo
child_status code child orig = record {
  signo = sigchld;
  code = code;
  pid = child.pid;
  uid = orig.uid;
  status = orig.signo;
  payload = 0;
}

-- `CLD_KILLED`, `CLD_STOPPED` and `CLD_CONTINUED`
abbrev pub cld_killed : ℕ
cld_killed = 2

abbrev pub cld_stopped : ℕ
cld_stopped = 5

abbrev pub cld_continued : ℕ
cld_continued = 6

-- `SA_NOCLDSTOP` is bit 0.
unfoldable pub wants_no_stops : SignalProcess → Bool
wants_no_stops p = handler_of p sigchld == sig_ign || flag 0 (p.sa_handlers (sigchld - 1)).sa_flags

abbrev pub parent_of : ℕ → Table → SignalProcess
parent_of a t = t.processes (t.processes a).parent

unfoldable pub is_forced : ℕ → Bool
is_forced sig = sig == 6 || (sig == 7 || (sig == 8 || (sig == 4 || sig == 11)))

-- The next step, unless this one has handled the signal.
abbrev pub or_else : Option (Bool × Table) → (Table → Option (Bool × Table)) → Option (Bool × Table)
or_else none k = none
or_else (some (true, t)) k = some (true, t)
or_else (some (false, t)) k = k t

-- A signal that no thread has taken is left to another step.
abbrev pub or_queued : (Table → Table) → Option (Bool × Table) → Option Table
or_queued k none = none
or_queued k (some (true, t)) = some t
or_queued k (some (false, t)) = some (k t)

abbrev pub handled : Option Table → Option (Bool × Table)
handled o = Option.map (λ t. (true, t)) o

-- The thread's mask, or the handler, keeps the signal from it.
abbrev pub blocks : Undefined → Receiver → ℕ → Bool
blocks u r sig = meets r.sa_mask (sig_mask u sig)

unfoldable pub is_ignored : Undefined → SignalProcess → ℕ → Bool
is_ignored u p sig =
    (handler_of p sig == 0 && default_action u sig == action_ign) || handler_of p sig == sig_ign

abbrev pub unscheduled : Receiver → Receiver
unscheduled r = record r { status = dont_schedule }

abbrev pub is_unscheduled : Status → Bool
is_unscheduled dont_schedule = true
is_unscheduled _ = false

unfoldable pub cannot_take : Undefined → Receiver → ℕ → Bool
cannot_take u r sig = blocks u r sig || (is_unscheduled r.status || r.sa_info.signo != 0)

-- The thread is to handle the signal and runs. `magic_queue_value` is an `unsigned int`.
abbrev pub planned : Siginfo → Receiver → Receiver
planned info r = record r {
  sa_info = info;
  status = runnable;
  magic_queue_value = (r.magic_queue_value + 1) % 2 ^ 32;
}

unfoldable pub take_signal : Undefined → ℕ → Siginfo → SignalProcess → SignalProcess
take_signal u i info p =
    change_thread i (planned info) (if ltb info.signo 32 then queue_remove u info.signo p else p)

-- The signals of the kernel cannot be ignored or masked.
unfoldable pub is_kept : Undefined → SignalProcess → ℕ → Siginfo → Bool
is_kept u p i info =
    (blocks u (p.threads i) info.signo
      || (handler_of p info.signo == sig_ign || handler_of p info.signo == 0))
    && not (si_user info.code)

abbrev pub is_waiting : Status → Bool
is_waiting waiting = true
is_waiting _ = false

abbrev pub wakened : Receiver → Receiver
wakened r = if is_waiting r.status then record r { status = runnable } else r

abbrev pub run_waiter : ℕ → ℕ → Table → Table
run_waiter a i t = change a (change_thread i wakened) t

abbrev pub is_busy : ℕ → ℕ → Table → Bool
is_busy a i t = ((t.processes a).threads i).sa_info.signo != 0

abbrev pub count_of : ℕ → Table → ℕ
count_of a t = (t.processes a).thread_count

-- Processes that are not signalled: those of the kernel, and one that waits for its cleanup.
unfoldable pub is_deaf : SignalProcess → Bool
is_deaf p = (p.pid == 0 || p.ring == 0) || p.do_cleanup != 0
