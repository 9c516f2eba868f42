-- ===== src/Process/Signals.antt =====
-- Signals, src/kernel_signals.c: what a process and its threads keep of them, and the two queues of a
-- process. `scheduler_lock` is held over each call, so it is one step. A set of signals is its bits; an
-- `int` is a 32-bit word, so that a negative signal number is a word above 64.
pub mod Parts
pub mod Dispatch
pub mod Masks
pub mod Handler
pub mod Kill
pub mod Enough
pub mod Delivered
pub mod Changes
pub mod Killed
pub mod Returns
pub mod Handled
pub mod Sound
pub mod Kept
pub mod KeptByHandlers
pub mod Calls
mod Tests
use unstable_os.Base.{
  Bool, List, [], false, flag, if◌then◌else◌, leb, ltb, not, suc, zero, ℕ, ◌&&◌, ◌++◌, ◌+◌, ◌-◌,
  ◌==◌, ◌||◌, ◌∷◌,
}
use unstable_os.Process.Thread.{Status}
use unstable_os.Rbtree.{Rbtree}

-- `sigset_t`, 64 bits counted from 0.
abbrev pub Sigset : Type 0
Sigset = ℕ → Bool

-- `a & b` is not 0, looked for below a bit.
unfoldable pub meet_below : ℕ → Sigset → Sigset → Bool
meet_below zero a b = false
meet_below (suc n) a b = (a n && b n) || meet_below n a b

abbrev pub meets : Sigset → Sigset → Bool
meets a b = meet_below 64 a b

abbrev pub join : Sigset → Sigset → Sigset
join a b i = a i || b i

abbrev pub without : Sigset → Sigset → Sigset
without a b i = a i && not (b i)

-- What the compiled code does where C leaves it undefined: the bits of `1 << (signal - 1)` for a shift
-- by more than 31, and the byte behind `signal_default_actions`.
pub record Undefined : Type 0 where
  pub overshift : ℕ → Sigset
  pub past_actions : ℕ

-- `GET_SIG_MASK`: the 1 is an `int`, so bit 31 is its sign.
unfoldable pub sig_mask : Undefined → ℕ → Sigset
sig_mask u sig i =
    if leb sig 31 then i == sig - 1 else if sig == 32 then leb 31 i else u.overshift sig i

-- `SAFE_SA_MASK`, for SIGKILL, SIGCONT and SIGSTOP.
unfoldable pub safe_mask : Sigset → Sigset
safe_mask a i = a i && not (i == 8 || (i == 17 || i == 18))

-- The numbers of signal.h that the code names.
abbrev pub sigkill : ℕ
sigkill = 9

abbrev pub sigchld : ℕ
sigchld = 17

abbrev pub sigcont : ℕ
sigcont = 18

abbrev pub sigstop : ℕ
sigstop = 19

abbrev pub sigtstp : ℕ
sigtstp = 20

abbrev pub sig_ign : ℕ
sig_ign = 1

-- `si_code & SI_USER`
abbrev pub si_user : ℕ → Bool
si_user code = flag 4 code

pub record Siginfo : Type 0 where
  pub signo : ℕ
  pub code : ℕ
  pub pid : ℕ
  pub uid : ℕ
  pub status : ℕ
  pub payload : ℕ

pub record Sigaction : Type 0 where
  pub sa_mask : Sigset
  pub sa_flags : ℕ
  pub sa_handler : ℕ
  pub restorer : ℕ

-- The fields of `thread_t` for signals, without the saved registers. `sa_to_be_handled` is the name of
-- `si_signo` in `sa_info_to_be_handled`.
pub record Receiver : Type 0 where
  pub tid : ℕ
  pub sa_mask : Sigset
  pub status : Status
  pub sa_info : Siginfo
  pub magic_queue_value : ℕ

-- The fields of `process_t` for signals. The handler of a signal is at its number less 1; the threads
-- are counted.
pub record SignalProcess : Type 0 where
  pub pid : ℕ
  pub ring : ℕ
  pub parent : ℕ
  pub uid : ℕ
  pub euid : ℕ
  pub suid : ℕ
  pub pgrp : ℕ
  pub session : ℕ
  pub sa_handlers : ℕ → Sigaction
  pub sa_pending : Sigset
  pub sa_pending_info : ℕ → Siginfo
  pub sa_rt_queue : List Siginfo
  pub sa_rt_queue_count : ℕ
  pub is_stopped : Bool
  pub do_cleanup : ℕ
  pub pending_waiting : Bool
  pub pending_sigchld_info : Siginfo
  pub postmortem_wstatus : ℕ
  pub threads : ℕ → Receiver
  pub thread_count : ℕ

-- The processes by address, with the tree of ids, the addresses of `process_list` and of the process and the place of the
-- thread that run.
pub record Table : Type 0 where
  pub processes : ℕ → SignalProcess
  pub process_tree : Rbtree
  pub process_list : List ℕ
  pub init_task : ℕ
  pub current_process : ℕ
  pub current_thread : ℕ

abbrev pub change : ℕ → (SignalProcess → SignalProcess) → Table → Table
change a f t = record t { processes = λ b. if b == a then f (t.processes b) else t.processes b }

abbrev pub change_thread : ℕ → (Receiver → Receiver) → SignalProcess → SignalProcess
change_thread i f p = record p { threads = λ j. if j == i then f (p.threads j) else p.threads j }

abbrev pub handler_of : SignalProcess → ℕ → ℕ
handler_of p sig = (p.sa_handlers (sig - 1)).sa_handler

abbrev pub is_realtime : ℕ → Bool
is_realtime sig = leb 32 sig && leb sig 64

-- `SIGQUEUE_MAX` is 32. `kalloc` gives the memory for a node, where the code panics without.
unfoldable pub queue_up : Undefined → Siginfo → SignalProcess → SignalProcess
queue_up u info p =
    if info.signo == 0
    then p
    else if is_realtime info.signo
    then (if ltb 32 p.sa_rt_queue_count then p else record p {
      sa_rt_queue_count = p.sa_rt_queue_count + 1;
      sa_rt_queue = p.sa_rt_queue ++ (info ∷ []);
    })
    else record p {
      sa_pending = join p.sa_pending (sig_mask u info.signo);
      sa_pending_info = λ i. if i == info.signo - 1 then info else p.sa_pending_info i;
    }

unfoldable pub queue_remove : Undefined → ℕ → SignalProcess → SignalProcess
queue_remove u sig p =
    if sig == 0 || is_realtime sig
    then p
    else record p { sa_pending = without p.sa_pending (sig_mask u sig) }

-- `SIGNAL_IGN` to `SIGNAL_STOP`
abbrev pub action_ign : ℕ
action_ign = 0

abbrev pub action_term : ℕ
action_term = 1

abbrev pub action_core : ℕ
action_core = 2

abbrev pub action_cont : ℕ
action_cont = 3

abbrev pub action_stop : ℕ
action_stop = 4

-- `signal_default_actions`: SIGHUP is at 1, and the entries that are not named are 0.
abbrev pub default_actions : List ℕ
default_actions =
    0 ∷ 1 ∷ 1 ∷ 2 ∷ 2 ∷ 2 ∷ 2 ∷ 2 ∷ 2 ∷ 1 ∷ 1 ∷ 2 ∷ 1 ∷ 1 ∷ 1 ∷ 1 ∷ 1 ∷ 0 ∷ 3 ∷ 4 ∷ 4 ∷ 4 ∷ 4 ∷ 0
    ∷ 2 ∷ 2 ∷ 1 ∷ 1 ∷ 0 ∷ 1 ∷ 1 ∷ 2 ∷ []

unfoldable pub default_action : Undefined → ℕ → ℕ
default_action u sig = if leb 64 sig then u.past_actions else action_of sig default_actions
  where
    action_of : ℕ → List ℕ → ℕ
    action_of i [] = 0
    action_of zero (x ∷ xs) = x
    action_of (suc i) (x ∷ xs) = action_of i xs
