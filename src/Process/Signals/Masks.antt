-- ===== src/Process/Signals/Masks.antt =====
-- The calls that set masks and handlers, src/kernel_signals.c: `sys_sigaction` and `sys_sigprocmask`. A
-- result comes with what `oact` or `oset` is set to. `act` is not NULL: the code reads it untested.
use unstable_os.Base.{
  Bool, Option, Outcome, einval, err, if◌then◌else◌, ltb, none, not, ok, set, some, ℕ, ◌-◌, ◌==◌,
  ◌||◌,
}
use unstable_os.Process.Signals.{
  Sigaction, SignalProcess, Sigset, Table, Undefined, change, change_thread, join, safe_mask,
  sig_mask, sigcont, sigkill, sigstop, without,
}

abbrev pub current : Table → SignalProcess
current t = t.processes t.current_process

abbrev pub mask_of : Table → Sigset
mask_of t = ((current t).threads t.current_thread).sa_mask

abbrev pub set_mask : Sigset → Table → Table
set_mask m t =
    change t.current_process (change_thread t.current_thread (λ r. record r { sa_mask = m })) t

-- A `memcpy` into `sa_handlers`, and the mask made safe.
abbrev pub with_handler : ℕ → Sigaction → SignalProcess → SignalProcess
with_handler sig act p = record p {
  sa_handlers =
      λ k. if k == sig - 1 then record act { sa_mask = safe_mask act.sa_mask } else p.sa_handlers k;
}

abbrev pub set_handler : ℕ → Sigaction → Table → Table
set_handler sig act t = change t.current_process (with_handler sig act) t

-- `SIG_HOLD`
abbrev pub sig_hold : ℕ
sig_hold = 2

unfoldable pub sigaction :
    Undefined → ℕ → Sigaction → Bool → Table → Outcome × Option Sigaction × Table
sigaction u sig act wants_old t =
    let old = if wants_old then some ((current t).sa_handlers (sig - 1)) else none in
    if sig == 0 || ltb 64 sig
    then (err einval, none, t)
    else if sig == sigkill || (sig == sigstop || sig == sigcont)
    then (err einval, none, t)
    else if act.sa_handler == sig_hold
    then (ok 0, old, set_mask (safe_mask (join (mask_of t) (sig_mask u sig))) t)
    else (ok 0, old, set_handler sig act t)

-- `SIG_BLOCK`, `SIG_SETMASK` and `SIG_UNBLOCK`
abbrev pub sig_block : ℕ
sig_block = 0

abbrev pub sig_setmask : ℕ
sig_setmask = 1

abbrev pub sig_unblock : ℕ
sig_unblock = 2

abbrev pub is_how : ℕ → Bool
is_how how = how == sig_block || (how == sig_setmask || how == sig_unblock)

unfoldable pub masked_by : ℕ → Sigset → Sigset → Sigset
masked_by how old set =
    if how == sig_block then join old set else if how == sig_setmask then set else without old set

unfoldable pub sigprocmask : ℕ → Option Sigset → Bool → Table → Outcome × Option Sigset × Table
sigprocmask how set wants_old t =
    let old = if wants_old then some (mask_of t) else none in
    if not (is_how how) then (err einval, none, t) else elim set [
      | none ↦ (ok 0, old, t)
      | some s ↦ (ok 0, old, set_mask (safe_mask (masked_by how (mask_of t) s)) t)
    ]
