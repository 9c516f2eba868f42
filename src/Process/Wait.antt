-- ===== src/Process/Wait.antt =====
-- Waiting for children, src/kernel_wait.c: here `sys_waitpid`, in Waitid `sys_waitid`. `scheduler_lock` is held over each round of
-- the loop, so a round is one step. When the thread has slept, it finds the state of the next `Wake`.
pub mod Reaped
pub mod Childless
pub mod Waitid
mod Tests
use unstable_os.Process.Signals.Parts.{cld_continued, cld_stopped}
use unstable_os.Base.{
  Bool, List, Option, Outcome, [], echild, eintr, err, false, flag, if◌then◌else◌, map, negative,
  none, ok, some, true, ℕ, ◌!=◌, ◌%◌, ◌&&◌, ◌+◌, ◌-◌, ◌==◌, ◌^◌, ◌||◌, ◌∷◌,
}
use unstable_os.Process.Signals.{Siginfo, si_user, sigchld}

-- The fields of `process_t` that a wait reads and writes, with the address of the process.
pub record Child : Type 0 where
  pub address : ℕ
  pub pid : ℕ
  pub pgrp : ℕ
  pub parent : ℕ
  pub pending_waiting : Bool
  pub do_cleanup : Bool
  pub is_stopped : Bool
  pub postmortem_wstatus : ℕ
  pub pending_sigchld_info : Siginfo
  pub user_clicks : ℕ
  pub system_clicks : ℕ

-- The two lists, the process that waits, and the tree of ids as a map.
pub record Family : Type 0 where
  pub process_list : List Child
  pub zombie_list : List Child
  pub process_tree : ℕ → Option ℕ
  pub current_process : ℕ
  pub current_pid : ℕ
  pub current_pgrp : ℕ
  pub dead_user_clicks : ℕ
  pub dead_system_clicks : ℕ

-- The child is one of the caller's that the argument names; a `pid_t` is a 32-bit word.
unfoldable pub is_meant : Family → ℕ → Child → Bool
is_meant f pid c =
    c.parent == f.current_process
    && (if pid == 2 ^ 32 - 1
        then true
        else if negative pid
        then c.pgrp == 2 ^ 32 - pid
        else if pid == 0
        then c.pgrp == f.current_pgrp
        else c.pid == pid)

unfoldable pub find_in_list : Family → ℕ → List Child → Option Child
find_in_list f pid [] = none
find_in_list f pid (c ∷ cs) =
    let rest = find_in_list f pid cs in if is_meant f pid c then some c else rest

unfoldable pub find_unwaited : Family → ℕ → List Child → Option Child
find_unwaited f pid [] = none
find_unwaited f pid (c ∷ cs) =
    let rest = find_unwaited f pid cs in
    if c.pending_waiting && is_meant f pid c then some c else rest

abbrev pub no_longer_pending : ℕ → Child → Child
no_longer_pending a c = if c.address == a then record c { pending_waiting = false } else c

-- `UNLINK_DOUBLE_LINKED_LIST`
unfoldable pub unlink : ℕ → List Child → List Child
unlink a [] = []
unlink a (c ∷ cs) = let rest = unlink a cs in if c.address == a then cs else c ∷ rest

-- `0x000400` and `0x000800`
abbrev pub stopped_status : ℕ
stopped_status = 0x400

abbrev pub continued_status : ℕ
continued_status = 0x800

unfoldable pub wstatus_of : Child → ℕ
wstatus_of c =
    if c.do_cleanup
    then c.postmortem_wstatus
    else if c.is_stopped
    then stopped_status
    else continued_status

-- The end of the call for a child of `zombie_list`.
unfoldable pub reap : Child → Family → Family
reap c f =
    let f' = record f { zombie_list = unlink c.address f.zombie_list } in
    elim (f.process_tree c.pid) [
      | none ↦ f'
      | some a ↦
          if a == c.address
          then record f' {
            process_tree = λ p. if p == c.pid then none else f.process_tree p;
            dead_user_clicks = (f.dead_user_clicks + c.user_clicks) % 2 ^ 64;
            dead_system_clicks = (f.dead_system_clicks + c.system_clicks) % 2 ^ 64;
          }
          else f'
    ]

abbrev pub noted : ℕ → Family → Family
noted a f = record f { process_list = map (no_longer_pending a) f.process_list }

-- What has become of the call: it sleeps, or it has returned, with the status for `wstatus`.
pub data Waited : Type 0 where
  asleep : Family → Waited
  returned : Outcome → Option ℕ → Family → Waited

-- What the thread finds when it has slept: the state, whether `check_eintr` holds, and the signal that it
-- is to handle.
pub record Wake : Type 0 where
  pub family : Family
  pub has_eintr : Bool
  pub info : Siginfo

-- `WNOHANG`, `WUNTRACED` and `WCONTINUED`
abbrev pub wnohang : ℕ → Bool
wnohang options = flag 2 options

abbrev pub wuntraced : ℕ → Bool
wuntraced options = flag 1 options

abbrev pub wcontinued : ℕ → Bool
wcontinued options = flag 0 options

-- One round of the loop up to the sleep, with what follows it.
unfoldable pub wait_round : ℕ → ℕ → Family → Waited → Waited
wait_round pid options f later = elim (find_in_list f pid f.zombie_list) [
  | some c ↦ returned (ok c.pid) (some (wstatus_of c)) (reap c f)
  | none ↦ elim (find_unwaited f pid f.process_list) [
    | some c ↦ returned (ok c.pid) (some (wstatus_of c)) (noted c.address f)
    | none ↦ elim (find_in_list f pid f.process_list) [
      | none ↦ returned (err echild) none f
      | some c ↦ if wnohang options then returned (ok 0) none f else later
    ]
  ]
]

-- A stopped or continued child that the signal names.
unfoldable pub told_of : ℕ → ℕ → Family → Waited
told_of pid status f = elim (find_in_list f pid f.process_list) [
  | none ↦ returned (ok pid) (some status) f
  | some c ↦ returned (ok pid) (some status) (noted c.address f)
]

-- The thread has been woken with `check_eintr`.
unfoldable pub interrupted : ℕ → Wake → Waited → Waited
interrupted options w again =
    let f = w.family in
    if w.info.signo != sigchld || si_user w.info.code
    then returned (err eintr) none f
    else if w.info.code == cld_stopped
    then (if wuntraced options
        then told_of w.info.pid stopped_status f
        else returned (err eintr) none f)
    else if w.info.code == cld_continued
    then (if wcontinued options
        then told_of w.info.pid continued_status f
        else returned (err eintr) none f)
    else again

unfoldable pub wait_loop : List Wake → ℕ → ℕ → Family → Waited
wait_loop [] pid options f = wait_round pid options f (asleep f)
wait_loop (w ∷ ws) pid options f =
    let again = wait_loop ws pid options w.family in
    wait_round pid options f (if w.has_eintr then interrupted options w again else again)

unfoldable pub waitpid : List Wake → ℕ → ℕ → Family → Waited
waitpid ws pid options f =
    if pid == f.current_pid then returned (err echild) none f else wait_loop ws pid options f
