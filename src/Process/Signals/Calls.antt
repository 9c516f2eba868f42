-- ===== src/Process/Signals/Calls.antt =====
-- Runs of calls of src/kernel_signals.c, in any order, by any process and thread. `signal_retry_process`,
-- tgkill, sigsuspend and PAUSE_SIGNALS are not among them.
use unstable_os.Base.{Bool, Option, Outcome, refl, some, ℕ, ◌≡◌}
use unstable_os.Process.Signals.{Sigaction, Siginfo, Sigset, Table, Undefined}
use unstable_os.Process.Signals.Dispatch.{signal_process}
use unstable_os.Process.Signals.Masks.{sigaction, sigprocmask}
use unstable_os.Process.Signals.Kill.{kill, sigqueue, user_info}
use unstable_os.Process.Signals.Handler.{Context, Memory, dispatch_sa, sigreturn}
use unstable_os.Process.Signals.KeptByHandlers.{dispatch_sa-Holds, sigreturn-AllSound}
use unstable_os.Process.Signals.Kept.{
  at_result, kill-Holds, sigaction-AllSound, sigprocmask-AllSound, sigqueue-Holds,
}
use unstable_os.Process.Signals.Sound.{AllSound, signal_process-AllSound}

-- Another thread of a process runs.
abbrev pub switch : ℕ → ℕ → Table → Table
switch a i t = record t { current_process = a; current_thread = i }

-- One call that ends.
pub data Step (u : Undefined) (t : Table) : Table → Type 0 where
  switched : (a i : ℕ) → Step u t (switch a i t)
  signalled :
      (fuel a : ℕ) (info : Siginfo) {t' : Table}
      → signal_process u fuel a info t ≡ some t'
      → Step u t t'
  killed :
      (fuel pid sig : ℕ) {o : Outcome} {t' : Table}
      → kill u fuel pid sig t ≡ some (o, t')
      → Step u t t'
  queued :
      (fuel pid sig payload : ℕ) {o : Outcome} {t' : Table}
      → sigqueue u fuel pid sig payload t ≡ some (o, t')
      → Step u t t'
  handler_entered :
      (fuel : ℕ) (m : Memory) (a i : ℕ) (c : Context) {t' : Table} {c' : Context}
      → dispatch_sa u fuel m a i t c ≡ some (t', c')
      → Step u t t'
  handler_left : (m : Memory) (a i : ℕ) (c : Context) → Step u t (sigreturn m a i t c).0
  handler_set : (sig : ℕ) (act : Sigaction) (b : Bool) → Step u t (sigaction u sig act b t).2
  mask_set : (how : ℕ) (new : Option Sigset) (b : Bool) → Step u t (sigprocmask how new b t).2

pub data Reach (u : Undefined) (t : Table) : Table → Type 0 where
  start : Reach u t t
  later : {t' t'' : Table} → Reach u t t' → Step u t' t'' → Reach u t t''

Step-AllSound : (u : Undefined) (t t' : Table) → Step u t t' → AllSound t → AllSound t'
Step-AllSound u t t' (switched a i) s = s
Step-AllSound u t t' (signalled fuel a info e) s =
    at_result (signal_process-AllSound u fuel a info t s) e
Step-AllSound u t t' (killed fuel pid sig e) s =
    at_result (kill-Holds u fuel (user_info sig 0) pid sig t refl s) e
Step-AllSound u t t' (queued fuel pid sig payload e) s =
    at_result (sigqueue-Holds u fuel (user_info sig payload) pid sig payload t refl s) e
Step-AllSound u t t' (handler_entered fuel m a i c e) s =
    at_result (dispatch_sa-Holds u fuel m a i t c s) e
Step-AllSound u t t' (handler_left m a i c) s = sigreturn-AllSound m a i t c s
Step-AllSound u t t' (handler_set sig act b) s = sigaction-AllSound u sig act b t s
Step-AllSound u t t' (mask_set how new b) s = sigprocmask-AllSound how new b t s

-- The runs are those of `__signal_process`, `kill`, `sigqueue`, `sigaction` and `sigprocmask`, and of the way
-- into a handler and back, `signal_dispatch_sa` and `sys_sigreturn`, in any order, for any processes
-- and threads, with whatever on the stacks. What follows holds behind such a run if it held before it:
-- no mask of a thread or of a handler holds SIGKILL, SIGCONT or SIGSTOP; a thread has a signal to handle
-- only up to 64; a pending standard signal has its own `siginfo_t`; the real-time queue is as long as its
-- count says, and holds at most 33 signals. `signal_retry_process`, tgkill, sigsuspend and PAUSE_SIGNALS are
-- not among these calls.
pub Reach-AllSound : (u : Undefined) (t t' : Table) → Reach u t t' → AllSound t → AllSound t'
Reach-AllSound u t t' start s = s
Reach-AllSound u t t' (later {t' = m} r step) s =
    Step-AllSound u m t' step (Reach-AllSound u t m r s)
