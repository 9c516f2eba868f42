-- ===== src/Process/Signals/Dispatch.antt =====
-- Dispatch of a signal to a thread and to a process, src/kernel_signals.c: from `signal_parent_cont` to
-- `__signal_process`. A process that stops, goes on or dies signals its parent, so `signal_process` calls
-- itself: the fuel bounds how deep.
use mathlib.Core.Option
use unstable_os.Base.{
  Bool, Option, false, if◌then◌else◌, ltb, none, not, some, suc, true, zero, ℕ, ◌&&◌, ◌*◌, ◌+◌,
  ◌==◌, ◌||◌,
}
use unstable_os.Process.Signals.{
  Siginfo, Table, Undefined, action_cont, action_core, action_ign, action_stop, action_term, change,
  change_thread, default_action, handler_of, queue_remove, queue_up, si_user, sig_ign, sigchld,
  sigcont, sigkill, sigstop, sigtstp,
}
use unstable_os.Process.Signals.Parts.{
  cannot_take, child_status, cld_continued, cld_killed, cld_stopped, count_of, handled, is_busy,
  is_deaf, is_forced, is_ignored, is_kept, is_waiting, or_else, or_queued, parent_of, run_waiter,
  take_signal, unscheduled, wants_no_stops,
}

-- `u` is what C leaves undefined, and `notify` the call that signals the parent.
module _ (u : Undefined) (notify : ℕ → Siginfo → Table → Option Table) where
  unfoldable pub parent_told : ℕ → ℕ → Siginfo → Table → Option Table
  parent_told code a info t =
      let told = child_status code (t.processes a) info in
      let t' = change a (λ p. record p { pending_sigchld_info = told }) t in
      if wants_no_stops (parent_of a t') then some t' else notify (t'.processes a).parent told t'

  unfoldable pub parent_cont : ℕ → Siginfo → Table → Option Table
  parent_cont a info t = parent_told cld_continued a info t

  unfoldable pub parent_stop : ℕ → Siginfo → Table → Option Table
  parent_stop a info t = parent_told cld_stopped a info t

  -- `0x100 | (orig_sig->si_signo << 12)` for a number below 2 ^ 20.
  unfoldable pub parent_killed : ℕ → Siginfo → Table → Option Table
  parent_killed a info t =
      let told = child_status cld_killed (t.processes a) info in
      let t' =
        change a
          (λ p. record p {
            pending_sigchld_info = told;
            postmortem_wstatus = 256 + info.signo * 4096;
          })
          t in
      if handler_of (parent_of a t') sigchld == sig_ign
      then some t'
      else notify (t'.processes a).parent told t'

  unfoldable pub force_kernel_sigs : ℕ → ℕ → Siginfo → Table → Option (Bool × Table)
  force_kernel_sigs a i info t =
      if is_forced info.signo
      then handled (
          parent_killed a info
            (change a (λ p. change_thread i unscheduled (record p { do_cleanup = 1 })) t))
      else some (false, t)

  -- What SIGKILL, SIGCONT and SIGSTOP do, also as default actions.
  unfoldable pub terminate : ℕ → Siginfo → Table → Option (Bool × Table)
  terminate a info t =
      handled (
        parent_killed a info
          (change a (λ p. record p { do_cleanup = 1; pending_waiting = true }) t))

  unfoldable pub continue : ℕ → Siginfo → Table → Option (Bool × Table)
  continue a info t = handled (
      Option.map (change a (λ p. queue_remove u sigtstp (queue_remove u sigstop p))) (
        parent_cont a info
          (change a (λ p. record p { is_stopped = false; pending_waiting = true }) t)))

  unfoldable pub stop : ℕ → Siginfo → Table → Option (Bool × Table)
  stop a info t = handled (
      Option.map (change a (queue_remove u sigcont)) (
        parent_stop a info
          (change a (λ p. record p { is_stopped = true; pending_waiting = true }) t)))

  unfoldable pub apply_default_action : ℕ → ℕ → Siginfo → Table → Option (Bool × Table)
  apply_default_action a i info t =
      let act = default_action u info.signo in
      if info.signo == 0
      then some (true, t)
      else if handler_of (t.processes a) info.signo == sig_ign
      then (if si_user info.code
          then some (true, t)
          else or_else (force_kernel_sigs a i info t) (λ t'. some (true, t')))
      else if handler_of (t.processes a) info.signo == 0
      then (if act == action_ign
          then some (true, t)
          else if act == action_cont
          then continue a info t
          else if act == action_stop
          then stop a info t
          else if act == action_core || act == action_term
          then terminate a info t
          else some (false, t))
      else some (false, t)

  -- The end of `signal_dispatch_thread`, behind the signals of the kernel.
  unfoldable pub hand_over : ℕ → ℕ → Siginfo → Bool → Table → Option (Bool × Table)
  hand_over a i info queued t =
      if is_ignored u (t.processes a) info.signo
      then some (true, t)
      else if cannot_take u ((t.processes a).threads i) info.signo
      then some (false, if queued then change a (queue_up u info) t else t)
      else some (true, change a (take_signal u i info) t)

  -- `signal_dispatch_thread`
  unfoldable pub dispatch_thread : ℕ → ℕ → Siginfo → Bool → Table → Option (Bool × Table)
  dispatch_thread a i info queued t =
      let sig = info.signo in
      if sig == 0
      then some (true, t)
      else if a == t.init_task && (sig == sigkill || (sig == sigstop || sig == sigtstp))
      then some (true, t)
      else if sig == sigkill
      then terminate a info t
      else if sig == sigcont
      then continue a info t
      else if sig == sigstop
      then stop a info t
      else if is_kept u (t.processes a) i info
      then or_else (force_kernel_sigs a i info t) (hand_over a i info queued)
      else hand_over a i info queued t

  -- The first loop of `signal_dispatch_process`, over the last `n` threads of the process: a thread that
  -- waits for a child takes the signal, and all of them run.
  unfoldable pub wake_waiters : ℕ → ℕ → Bool → ℕ → Siginfo → Table → Option Table
  wake_waiters zero i sent a info t = some t
  wake_waiters (suc n) i sent a info t =
      let rest = wake_waiters n (i + 1) in
      if is_busy a i t || not (is_waiting ((t.processes a).threads i).status)
      then rest sent a info t
      else if sent
      then rest sent a info (run_waiter a i t)
      else elim (dispatch_thread a i info false t) [
        | none ↦ none
        | some (done, t') ↦ rest done a info (run_waiter a i t')
      ]

  -- The second loop: the first of the last `n` threads that takes the signal.
  unfoldable pub offer : ℕ → ℕ → ℕ → Siginfo → Table → Option (Bool × Table)
  offer zero i a info t = some (false, t)
  offer (suc n) i a info t =
      let rest = offer n (i + 1) a info in
      if is_busy a i t then rest t else or_else (dispatch_thread a i info false t) rest

  -- The second loop and what follows it.
  unfoldable pub offer_all : ℕ → Siginfo → Table → Option Table
  offer_all a info t = or_queued (change a (queue_up u info)) (offer (count_of a t) 0 a info t)

  unfoldable pub dispatch_process : ℕ → Siginfo → Table → Option Table
  dispatch_process a info t =
      if info.signo == sigchld && not (si_user info.code)
      then elim (wake_waiters (count_of a t) 0 false a info t) [
        | none ↦ none
        | some t' ↦ offer_all a info t'
      ]
      else offer_all a info t

  unfoldable pub signal_body : ℕ → Siginfo → Table → Option Table
  signal_body a info t =
      if (info.signo == 0 || ltb 64 info.signo) || is_deaf (t.processes a)
      then some t
      else dispatch_process a info t

-- `__signal_process`; `none` is the end of the fuel.
unfoldable pub signal_process : Undefined → ℕ → ℕ → Siginfo → Table → Option Table
signal_process u zero a info t = none
signal_process u (suc n) a info t = signal_body u (signal_process u n) a info t
