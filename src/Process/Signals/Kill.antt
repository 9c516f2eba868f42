-- ===== src/Process/Signals/Kill.antt =====
-- Sending signals by id, src/kernel_signals.c: `sys_kill`, `sys_sigqueue` and what they call.
use unstable_os.Base.{
  Bool, List, Option, Outcome, [], einval, eperm, err, esrch, false, if◌then◌else◌, ltb, negative,
  none, not, ok, some, true, ℕ, ◌!=◌, ◌&&◌, ◌-◌, ◌==◌, ◌^◌, ◌||◌, ◌∷◌,
}
use unstable_os.Process.Signals.{Siginfo, SignalProcess, Table, Undefined, sigcont}
use unstable_os.Process.Signals.Dispatch.{signal_process}
use unstable_os.Process.Signals.Masks.{current}
use unstable_os.Rbtree.{search_exact}

-- Whether one process may signal another.
unfoldable pub may_signal : SignalProcess → SignalProcess → ℕ → Bool
may_signal c p sig =
    c.euid == 0
    || ((sig == sigcont && c.session == p.session)
        || (c.uid == p.uid || (c.uid == p.suid || (c.euid == p.uid || c.euid == p.suid))))

-- The result of a call that has signalled.
abbrev pub returns : Outcome → Option Table → Option (Outcome × Table)
returns o none = none
returns o (some t) = some (o, t)

-- `signal_send_process` for a process that was found.
unfoldable pub send_found : Undefined → ℕ → ℕ → Siginfo → Table → Option (Outcome × Table)
send_found u fuel a info t =
    if (t.processes a).thread_count == 0
    then some (err esrch, t)
    else if not (may_signal (current t) (t.processes a) info.signo)
    then some (err eperm, t)
    else returns (ok 0) (signal_process u fuel a info t)

unfoldable pub signal_send_process : Undefined → ℕ → ℕ → Siginfo → Table → Option (Outcome × Table)
signal_send_process u fuel pid info t = elim (search_exact t.process_tree pid) [
  | none ↦ some (err esrch, t)
  | some a ↦ send_found u fuel a info t
]

-- The loop over `process_list`: the table, and `found` at the end.
unfoldable pub signal_group :
    Undefined → ℕ → ℕ → Siginfo → Bool → Bool → List ℕ → Table → Option (Bool × Table)
signal_group u fuel pgrp info do_perms found [] t = some (found, t)
signal_group u fuel pgrp info do_perms found (a ∷ rest_of) t =
    let skipped = signal_group u fuel pgrp info do_perms found rest_of t in
    if (t.processes a).pgrp == pgrp
      && (not do_perms || may_signal (current t) (t.processes a) info.signo)
    then elim (signal_process u fuel a info t) [
      | none ↦ none
      | some t' ↦ signal_group u fuel pgrp info do_perms true rest_of t'
    ]
    else skipped

abbrev pub found_any : Option (Bool × Table) → Option (Outcome × Table)
found_any none = none
found_any (some (true, t)) = some (ok 0, t)
found_any (some (false, t)) = some (err esrch, t)

unfoldable pub signal_send_process_group :
    Undefined → ℕ → ℕ → Siginfo → Bool → Table → Option (Outcome × Table)
signal_send_process_group u fuel pgrp info do_perms t =
    found_any (signal_group u fuel pgrp info do_perms false t.process_list t)

unfoldable pub signal_send_every : Undefined → ℕ → Siginfo → List ℕ → Table → Option Table
signal_send_every u fuel info [] t = some t
signal_send_every u fuel info (a ∷ rest_of) t = elim (signal_process u fuel a info t) [
  | none ↦ none
  | some t' ↦ signal_send_every u fuel info rest_of t'
]

-- A `siginfo_t` with `SI_USER` and a payload.
abbrev pub user_info : ℕ → ℕ → Siginfo
user_info sig payload = record {
  signo = sig;
  code = 16;
  pid = 0;
  uid = 0;
  status = 0;
  payload = payload;
}

unfoldable pub kill : Undefined → ℕ → ℕ → ℕ → Table → Option (Outcome × Table)
kill u fuel pid sig t =
    let info = user_info sig 0 in
    if ltb 64 sig
    then some (err einval, t)
    else if pid != 0 && not (negative pid)
    then signal_send_process u fuel pid info t
    else if pid == 0
    then signal_send_process_group u fuel (current t).pgrp info true t
    else if pid == 2 ^ 32 - 1
    then returns (ok 0) (signal_send_every u fuel info t.process_list t)
    else signal_send_process_group u fuel (2 ^ 32 - pid) info true t

unfoldable pub sigqueue : Undefined → ℕ → ℕ → ℕ → ℕ → Table → Option (Outcome × Table)
sigqueue u fuel pid sig payload t =
    if ltb 64 sig
    then some (err einval, t)
    else signal_send_process u fuel pid (user_info sig payload) t
