-- ===== src/Process/Signals/Handler.antt =====
-- A signal handler of the users is entered and left, src/kernel_signals.c: `signal_dispatch_sa` and
-- `sys_sigreturn`. A thread runs in user mode or in the kernel, not in a virtual 8086; the state of the FPU
-- is left out.
use unstable_os.Base.{
  Bool, List, Option, false, flag, if◌then◌else◌, leb, ltb, none, not, some, true, ℕ, ◌%◌, ◌&&◌,
  ◌*◌, ◌+◌, ◌-◌, ◌/◌, ◌==◌, ◌^◌, ◌||◌,
}
use unstable_os.Process.Signals.{
  Receiver, Sigaction, Siginfo, SignalProcess, Sigset, Table, Undefined, change, change_thread,
  join, safe_mask, sig_mask,
}
use unstable_os.Process.Signals.Dispatch.{apply_default_action, signal_process}
use unstable_os.Process.Thread.{dont_schedule}

-- `__gregcontext_t`: the registers from `edi` to `eax`, and the frame of the interrupt. The flags are bits.
pub record Gregs : Type 0 where
  pub general : List ℕ
  pub ip : ℕ
  pub cs : ℕ
  pub eflags : ℕ → Bool
  pub sp : ℕ
  pub ss : ℕ

-- `struct signal_stack_state`, on the stack of the thread. The link and the registers are those of
-- `__ctx`, and `ctx` points there.
pub record StackState : Type 0 where
  pub restorer_eip : ℕ
  pub sig : ℕ
  pub info : Siginfo
  pub previous_sa_mask : Sigset
  pub uc_link : ℕ
  pub uc_sigmask : Sigset
  pub uc_gregs : Gregs

-- The registers of a thread, its `last_context`, and what its stack holds at an address.
pub record Context : Type 0 where
  pub gregs : Gregs
  pub last_context : ℕ
  pub stack : ℕ → StackState

-- What the page tables and the compiler decide: `check_address_writable`, the size of a `StackState`, and
-- where `__ctx` lies in it.
pub record Memory : Type 0 where
  pub is_writable : ℕ → ℕ → Bool
  pub state_size : ℕ
  pub ctx_offset : ℕ

-- `PROGRAM_STACK_VADDR`, and the size of all stacks.
abbrev pub stack_top : ℕ
stack_top = 0xD0000000

abbrev pub stacks_size : ℕ
stacks_size = 2 ^ 28

unfoldable pub on_stack : ℕ → Bool
on_stack sp = ltb sp stack_top && leb (stack_top - stacks_size) sp

abbrev pub receiver : ℕ → ℕ → Table → Receiver
receiver a i t = (t.processes a).threads i

-- The end of a thread with a bad stack.
abbrev pub segmentation_fault : ℕ → (Receiver → Receiver) → SignalProcess → SignalProcess
segmentation_fault i f p =
    record (change_thread i (λ r. record (f r) { status = dont_schedule }) p) { do_cleanup = 1 }

-- Aligned to 16 bytes.
abbrev pub state_at : Memory → ℕ → ℕ
state_at m sp = (sp - m.state_size) / 16 * 16

-- `SA_NODEFER` is bit 6, `SA_RESETHAND` bit 2.
unfoldable pub handler_mask : Undefined → Sigaction → Receiver → Sigset
handler_mask u h r =
    let kept =
      if flag 6 h.sa_flags then r.sa_mask else join r.sa_mask (sig_mask u r.sa_info.signo) in
    safe_mask (join kept h.sa_mask)

abbrev pub no_action : Sigaction
no_action = record { sa_mask = λ i. false; sa_flags = 0; sa_handler = 0; restorer = 0 }

abbrev pub reset_hand : ℕ → Sigaction → SignalProcess → SignalProcess
reset_hand sig h p =
    if flag 2 h.sa_flags
    then record p { sa_handlers = λ k. if k == sig - 1 then no_action else p.sa_handlers k }
    else p

unfoldable pub stack_state : Undefined → Sigaction → Receiver → Context → StackState
stack_state u h r c = record {
  restorer_eip = h.restorer;
  sig = r.sa_info.signo;
  info = r.sa_info;
  previous_sa_mask = r.sa_mask;
  uc_link = c.last_context;
  uc_sigmask = handler_mask u h r;
  uc_gregs = c.gregs;
}

-- `sa_to_be_handled = 0`
abbrev pub handled_now : Receiver → Receiver
handled_now r = record r { sa_info = record r.sa_info { signo = 0 } }

abbrev pub masked : Sigset → Receiver → Receiver
masked mask r = record (handled_now r) { sa_mask = mask }

-- The thread is in its handler: the part of `signal_dispatch_sa` behind its tests.
unfoldable pub enter_handler : Undefined → Memory → ℕ → ℕ → Table → Context → Table × Context
enter_handler u m a i t c =
    let r = receiver a i t in
    let sig = r.sa_info.signo in
    let h = (t.processes a).sa_handlers (sig - 1) in
    let at = state_at m c.gregs.sp in
    (
      change a (λ p. change_thread i (masked (handler_mask u h r)) (reset_hand sig h p)) t,
      record {
        gregs = record c.gregs { sp = at; ip = h.sa_handler };
        last_context = at + m.ctx_offset;
        stack = λ b. if b == at then stack_state u h r c else c.stack b;
      },
    )

-- `signal_dispatch_sa` for a signal that no default action has dealt with.
unfoldable pub dispatch_handler : Undefined → Memory → ℕ → ℕ → Table → Context → Table × Context
dispatch_handler u m a i t c =
    if c.gregs.cs % 4 == 0
    then (t, c)
    else if not (on_stack c.gregs.sp)
        || not (m.is_writable (c.gregs.sp - 16 - m.state_size) (16 + m.state_size))
    then (change a (segmentation_fault i handled_now) t, c)
    else enter_handler u m a i t c

unfoldable pub dispatch_sa :
    Undefined → ℕ → Memory → ℕ → ℕ → Table → Context → Option (Table × Context)
dispatch_sa u fuel m a i t c =
    if (receiver a i t).sa_info.signo == 0
    then some (t, c)
    else elim (apply_default_action u (signal_process u fuel) a i (receiver a i t).sa_info t) [
      | none ↦ none
      | some (true, t') ↦ some (change a (change_thread i handled_now) t', c)
      | some (false, t') ↦ some (dispatch_handler u m a i t' c)
    ]

-- `SAFE_EFL_MASK`: carry, parity, adjust, zero and sign.
abbrev pub is_status_flag : ℕ → Bool
is_status_flag i = i == 0 || (i == 2 || (i == 4 || (i == 6 || i == 7)))

-- `sigreturn_restore_context`
unfoldable pub restore_context : Gregs → Gregs → Gregs
restore_context target source = record target {
  general = source.general;
  ip = source.ip;
  sp = source.sp;
  eflags = λ i. if is_status_flag i then source.eflags i else target.eflags i;
}

abbrev pub with_mask : Sigset → Receiver → Receiver
with_mask mask r = record r { sa_mask = mask }

-- `sys_sigreturn`: the state lies below the address that the return to the restorer has taken off.
unfoldable pub sigreturn : Memory → ℕ → ℕ → Table → Context → Table × Context
sigreturn m a i t c =
    let state = c.stack (c.gregs.sp - 4) in
    if not (on_stack c.gregs.sp) || not (m.is_writable c.gregs.sp m.state_size)
    then (change a (segmentation_fault i (λ r. r)) t, c)
    else (
      change a (change_thread i (with_mask (safe_mask state.previous_sa_mask))) t,
      record c { gregs = restore_context c.gregs state.uc_gregs; last_context = state.uc_link },
    )
