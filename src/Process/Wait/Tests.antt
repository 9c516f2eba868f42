-- ===== src/Process/Wait/Tests.antt =====
-- Waiting with two zombies of the caller's and one of another process.
use unstable_os.Base.{
  [], arith, echild, err, false, none, refl, some, true, ℕ, ◌*◌, ◌/◌, ◌↔◌, ◌∷◌, ◌≡◌,
}
use unstable_os.Process.Signals.Kill.{user_info}
use unstable_os.Process.Wait.{Child, Family, Wake, returned, waitpid}
use unstable_os.Process.Wait.Reaped.{
  Apart, IsReaped, NoneMeant, NotAt, ours, wait_times, wait_times-IsReaped,
}
use unstable_os.Process.Wait.Waitid.{IsSeen, p_pid, waitid, waitid-IsSeen}
use unstable_os.Process.Wait.Childless.{waitpid-NoneMeant}

abbrev killed : ℕ → ℕ → Child
killed a p = record {
  address = a;
  pid = a / 100;
  pgrp = 3;
  parent = p;
  pending_waiting = true;
  do_cleanup = true;
  is_stopped = false;
  postmortem_wstatus = 256;
  pending_sigchld_info = user_info 17 0;
  user_clicks = 5;
  system_clicks = 2;
}

abbrev family : Family
family = record {
  process_list = killed 900 300 ∷ [];
  zombie_list = killed 500 300 ∷ killed 600 400 ∷ killed 700 300 ∷ [];
  process_tree = λ p. some (p * 100);
  current_process = 300;
  current_pid = 3;
  current_pgrp = 3;
  dead_user_clicks = 0;
  dead_system_clicks = 0;
}

family-Apart : Apart family.zombie_list
unfolding Apart NotAt
family-Apart = ((λ e. omega arith, (λ e. omega arith, tt)), ((λ e. omega arith, tt), (tt, tt)))

wait_times-IsReaped_example :
    IsReaped (killed 500 300 ∷ killed 700 300 ∷ []) family (wait_times 2 family)
unfolding ours
wait_times-IsReaped_example =
    wait_times-IsReaped (killed 500 300 ∷ killed 700 300 ∷ []) family family-Apart (omega arith)
      refl

waitpid-NoneMeant_example :
    (waitpid [] 6 0 family ≡ returned (err echild) none family)
    ↔ (NoneMeant family 6 family.zombie_list × NoneMeant family 6 family.process_list)
waitpid-NoneMeant_example = waitpid-NoneMeant 6 0 family (omega arith)

abbrev wake : Wake
wake = record { family = family; has_eintr = true; info = user_info 10 0 }

-- `WNOWAIT | WEXITED`
waitid-IsSeen_example : IsSeen family (wake ∷ []) (waitid (wake ∷ []) p_pid 7 24 family)
waitid-IsSeen_example = waitid-IsSeen (wake ∷ []) p_pid 7 24 family refl
