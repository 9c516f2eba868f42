-- ===== src/Process/Signals/Tests.antt =====
-- Signals among processes of two threads that catch every signal; the process at 0 is init.
use unstable_os.Process.Signals.Parts.{is_deaf, is_ignored, planned}
use unstable_os.Base.{Option, [], arith, false, refl, some, true, ℕ, ◌+◌, ◌-◌, ◌==◌, ◌^◌, ◌∷◌, ◌≡◌}
use unstable_os.Process.Thread.{interr_sleep}
use unstable_os.Process.Signals.{
  Receiver, Sigaction, Siginfo, SignalProcess, Sigset, Table, Undefined, change, change_thread,
  default_action,
}
use unstable_os.Process.Signals.Dispatch.{signal_process}
use unstable_os.Process.Signals.Sound.{AllSound, change-AllSound, change_thread-IsSound}
use unstable_os.Process.Signals.Calls.{
  Reach, Reach-AllSound, handler_entered, handler_left, later, mask_set, start,
}
use unstable_os.Process.Signals.Kill.{kill, user_info}
use unstable_os.Process.Signals.Masks.{sigprocmask}
use unstable_os.Process.Signals.Killed.{IsDying, signal_process-IsDying}
use unstable_os.Process.Signals.Delivered.{IsOrdinary, first_able, placed, signal_process-placed}
use unstable_os.Process.Signals.Returns.{kill-Ends}
use unstable_os.Process.Signals.Handled.{
  IsReady, IsRestored, dispatch_sa-enter_handler, dispatch_sa-sigreturn,
}
use unstable_os.Process.Signals.Handler.{
  Context, Memory, enter_handler, on_stack, receiver, sigreturn, state_at,
}
use unstable_os.Process.Signals.Enough.{Same}
use unstable_os.Rbtree.{leaf}

abbrev undefined : Undefined
undefined = record { overshift = λ s i. false; past_actions = 0 }

abbrev no_signals : Sigset
no_signals i = false

abbrev sigusr1 : Siginfo
sigusr1 = user_info 10 0

abbrev catches : Sigaction
catches = record { sa_mask = no_signals; sa_flags = 0; sa_handler = 5000; restorer = 6000 }

abbrev idle : Receiver
idle = record {
  tid = 4;
  sa_mask = no_signals;
  status = interr_sleep;
  sa_info = user_info 0 0;
  magic_queue_value = 7;
}

abbrev living : ℕ → SignalProcess
living a = record {
  pid = a + 1;
  ring = 3;
  parent = 0;
  uid = 5;
  euid = 5;
  suid = 5;
  pgrp = 1;
  session = 1;
  sa_handlers = λ k. catches;
  sa_pending = no_signals;
  sa_pending_info = λ k. sigusr1;
  sa_rt_queue = [];
  sa_rt_queue_count = 0;
  is_stopped = false;
  do_cleanup = 0;
  pending_waiting = false;
  pending_sigchld_info = sigusr1;
  postmortem_wstatus = 0;
  threads = λ i. idle;
  thread_count = 2;
}

abbrev table : Table
table = record {
  processes = living;
  process_tree = leaf;
  process_list = 0 ∷ 1 ∷ [];
  init_task = 0;
  current_process = 1;
  current_thread = 0;
}

ordinary : IsOrdinary 10 1 table
ordinary = (omega arith, omega arith, omega arith, omega arith, omega arith, λ e. omega arith)

abbrev place : Option ℕ
place = first_able undefined 2 0 10 (λ i. idle)

signal_process-placed_example :
    signal_process undefined 2 1 sigusr1 table ≡ some (placed undefined 1 sigusr1 place table)
unfolding is_deaf is_ignored default_action
signal_process-placed_example =
    signal_process-placed undefined 1 1 sigusr1 table ordinary refl refl refl

signal_process-IsDying_example :
    (t' : Table) × (signal_process undefined 2 1 (user_info 9 0) table ≡ some t') × IsDying 1 t'
unfolding is_deaf
signal_process-IsDying_example =
    signal_process-IsDying undefined 0 1 0 (user_info 9 0) table refl (omega arith) refl
      (omega arith) refl

kill-Ends_example :
    Same (kill undefined 2 (2 ^ 32 - 1) 19 table) (kill undefined 5 (2 ^ 32 - 1) 19 table)
kill-Ends_example = kill-Ends undefined 3 (2 ^ 32 - 1) 19 table

table_sound : AllSound table
table_sound a = record {
  masks = λ i. (refl, refl, refl);
  handlers = λ k. (refl, refl, refl);
  plans = λ i. omega arith;
  infos = λ i lt e. cc;
  counted = refl;
  bounded = omega arith;
}

abbrev memory : Memory
memory = record { is_writable = λ a n. true; state_size = 600; ctx_offset = 24 }

abbrev context : Context
context = record {
  gregs = record {
    general = 1 ∷ 2 ∷ 3 ∷ 4 ∷ 5 ∷ 6 ∷ 7 ∷ 8 ∷ [];
    ip = 0x1000;
    cs = 27;
    eflags = λ k. k == 6;
    sp = 0xCFFFFF04;
    ss = 35;
  };
  last_context = 0;
  stack = λ b. record {
    restorer_eip = 0;
    sig = 0;
    info = sigusr1;
    previous_sa_mask = no_signals;
    uc_link = 0;
    uc_sigmask = no_signals;
    uc_gregs = record { general = []; ip = 0; cs = 0; eflags = λ k. false; sp = 0; ss = 0 };
  };
}

abbrev told : Table
told = change 1 (change_thread 0 (planned sigusr1)) table

abbrev inside : Context
inside = (enter_handler undefined memory 1 0 told context).1

-- The handler has returned to the restorer.
abbrev after : Context
after = record inside {
  gregs = record inside.gregs { sp = state_at memory 0xCFFFFF04 + 4; general = [] };
}

ready : IsReady memory 1 0 told context
unfolding on_stack
ready = record {
  has_signal = omega arith;
  caught = (omega arith, omega arith);
  user_mode = refl;
  has_stack = refl;
  has_room = refl;
}

dispatch_sa-sigreturn_example :
    ((k : ℕ) → (receiver 1 0 (sigreturn memory 1 0 told after).0).sa_mask k ≡ false)
    × IsRestored context after (sigreturn memory 1 0 told after).1
unfolding on_stack enter_handler
dispatch_sa-sigreturn_example =
    dispatch_sa-sigreturn undefined memory 2 1 0 told _ told context inside after ready
      (refl, refl, refl) (dispatch_sa-enter_handler undefined memory 1 0 told context ready 2) refl
      refl refl refl

told_sound : AllSound told
told_sound =
    change-AllSound (change_thread 0 (planned sigusr1)) 1 table
      (λ p. change_thread-IsSound 0 (planned sigusr1) p (λ r h. h) (λ r h. omega arith)) table_sound

-- The handler of a signal is entered and left, and the thread sets its mask.
a_run :
    Reach undefined told
      (sigprocmask 1
        (some (λ i. true))
        false
        (sigreturn memory 1 0 (enter_handler undefined memory 1 0 told context).0 after).0).2
a_run =
    later
      (later
        (later start (
          handler_entered 2 memory 1 0 context
            (dispatch_sa-enter_handler undefined memory 1 0 told context ready 2)))
        (handler_left memory 1 0 after))
      (mask_set 1 (some (λ i. true)) false)

Reach-AllSound_example :
    AllSound
      (sigprocmask 1
        (some (λ i. true))
        false
        (sigreturn memory 1 0 (enter_handler undefined memory 1 0 told context).0 after).0).2
Reach-AllSound_example = Reach-AllSound undefined told _ a_run told_sound
