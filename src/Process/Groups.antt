-- ===== src/Process/Groups.antt =====
-- Process groups and sessions, src/process_groups.c. A process is named by its address, and the tree
-- of src/rbtree.c leads from ids to addresses. `pid_t` is the 32-bit word of an `int`. Each call holds
-- the locks of the processes that it changes, so it is one step.
pub mod Sessions
pub mod Ancestors
pub mod Leader
mod Tests
use unstable_os.Base.{
  Bool, List, Option, Outcome, [], eacces, einval, eperm, err, esrch, false, if◌then◌else◌,
  negative, none, ok, some, suc, true, zero, ℕ, ◌!=◌, ◌%◌, ◌&&◌, ◌+◌, ◌-◌, ◌==◌, ◌^◌, ◌||◌, ◌∷◌,
}
use unstable_os.Process.Thread.{Status, runnable, waiting}
use unstable_os.Rbtree.{Rbtree, search_exact}

-- The fields of `process_t` that process_groups.c reads and writes, with the status of each thread.
pub record Process : Type 0 where
  pub pid : ℕ
  pub pgrp : ℕ
  pub session : ℕ
  pub ctty : ℕ
  -- The address of the leader of the group, if the leader lives.
  pub pgrp_leader : Option ℕ
  pub pgrp_members : ℕ
  pub parent : ℕ
  pub after_exec : Bool
  pub statuses : List Status

abbrev pub Processes : Type 0
Processes = ℕ → Process

-- The processes, the tree of ids, and the address of the calling process.
pub record System : Type 0 where
  pub processes : Processes
  pub process_tree : Rbtree
  pub current : ℕ

abbrev pub update : ℕ → (Process → Process) → Processes → Processes
update a f ps b = if b == a then f (ps b) else ps b

abbrev pub the_current : System → Process
the_current s = s.processes s.current

unfoldable pub find_process : ℕ → System → Option ℕ
find_process pid s = search_exact s.process_tree pid

unfoldable pub getpgid : ℕ → System → Outcome
unfolding find_process
getpgid pid s =
    if pid == 0
    then ok (the_current s).pgrp
    else elim (find_process pid s) [ none ↦ err esrch | some a ↦ ok (s.processes a).pgrp ]

unfoldable pub getsid : ℕ → System → Outcome
unfolding find_process
getsid pid s =
    if pid == 0
    then ok (the_current s).session
    else elim (find_process pid s) [ none ↦ err esrch | some a ↦ ok (s.processes a).session ]

-- The threads of a process that wait for a group run again.
pub wake_waiting : List Status → List Status
wake_waiting [] = []
wake_waiting (waiting ∷ ts) = runnable ∷ wake_waiting ts
wake_waiting (t ∷ ts) = t ∷ wake_waiting ts

abbrev pub informed : Process → Process
informed p = record p { statuses = wake_waiting p.statuses }

pub inform_parent : ℕ → Processes → Processes
inform_parent a ps = update (ps a).parent informed ps

abbrev pub count_members : (ℕ → ℕ) → Process → Process
count_members f p = record p { pgrp_members = f p.pgrp_members }

abbrev pub less_one : ℕ → ℕ
less_one n = (n + (2 ^ 32 - 1)) % 2 ^ 32

abbrev pub more_one : ℕ → ℕ
more_one n = (n + 1) % 2 ^ 32

-- One member less for the leader, if there is one. `unsigned long` has 32 bits.
abbrev pub leave : Option ℕ → Processes → Processes
leave none ps = ps
leave (some l) ps = update l (count_members less_one) ps

-- The fields that `setsid` gives the caller.
abbrev pub lead : ℕ → Process → Process
lead a p = record p { pgrp = p.pid; session = p.pid; pgrp_leader = some a; pgrp_members = 0 }

-- The caller is counted out of its group and leads a new one.
abbrev pub led : System → Processes
led s = update s.current (lead s.current) (leave (the_current s).pgrp_leader s.processes)

abbrev pub without_ctty : Process → Process
without_ctty p = record p { ctty = 0 }

pub new_session : System → Processes
unfolding inform_parent
new_session s = update s.current without_ctty (inform_parent s.current (led s))

pub setsid : System → Outcome × System
unfolding new_session
setsid s =
    if (the_current s).pgrp_members != 0 || (the_current s).pid == (the_current s).pgrp
    then (err eperm, s)
    else (ok (the_current s).pid, record s { processes = new_session s })

-- The loop of `setpgid` from `tmp` up to the caller or to the process with id 0, with the value of
-- `child_after_exec` so far: that value at the end, and whether the target is not a child. `none`
-- is the end of the fuel.
pub walk : ℕ → Bool → ℕ → System → Option (Bool × Bool)
walk zero exec tmp s = none
walk (suc fuel) exec tmp s =
    let rest = walk fuel (exec || (s.processes tmp).after_exec) (s.processes tmp).parent s in
    if (s.processes tmp).pid != 0 && tmp != s.current
    then rest
    else some (exec, (s.processes tmp).pid == 0)

-- The process that `pid` names, and the leader that `pgid` names.
unfoldable pub target_of : ℕ → System → Option ℕ
unfolding find_process
target_of pid s =
    if pid == 0 || pid == (the_current s).pid then some s.current else find_process pid s

unfoldable pub group_of : ℕ → ℕ → System → Option ℕ
unfolding find_process target_of
group_of pid pgid s =
    if pgid == 0 || pgid == (the_current s).pid
    then some s.current
    else if pid == pgid
    then target_of pid s
    else find_process pgid s

-- Session leaders stay, and the target and the group must be in the caller's session.
unfoldable pub not_permitted : ℕ → ℕ → System → Bool
not_permitted t g s =
    (s.processes t).pid == (s.processes t).session
    || ((s.processes t).session != (the_current s).session
        || (s.processes g).session != (the_current s).session)

-- The target is counted out of the group that it is in, unless it leads that group.
pub leave_unless : ℕ → Option ℕ → Processes → Processes
leave_unless t none ps = ps
leave_unless t (some l) ps = if t == l then ps else leave (some l) ps

abbrev pub left_group : ℕ → Processes → Processes
left_group t ps = leave_unless t (ps t).pgrp_leader ps

pub count_move : ℕ → ℕ → Processes → Processes
unfolding leave_unless
count_move t g ps =
    if t == g
    then update t (count_members (λ n. 0)) (left_group t ps)
    else update g (count_members more_one) (left_group t ps)

pub move : ℕ → ℕ → Processes → Processes
unfolding count_move
move t g ps =
    update t (λ p. record p { pgrp_leader = some g; pgrp = (ps g).pid }) (count_move t g ps)

-- The part of `setpgid` behind the test of the target's ancestors.
unfoldable pub regroup : ℕ → ℕ → System → Outcome × System
unfolding move inform_parent
regroup t g s = (ok 0, record s { processes = inform_parent s.current (move t g s.processes) })

-- What the test of the ancestors makes of the call.
pub after_walk : Option (Bool × Bool) → ℕ → ℕ → System → Option (Outcome × System)
unfolding regroup
after_walk none t g s = none
after_walk (some (exec, true)) t g s = some (err esrch, s)
after_walk (some (true, false)) t g s = some (err eacces, s)
after_walk (some (false, false)) t g s = some (regroup t g s)

-- `setpgid` with the target and the group that its arguments name.
unfoldable pub setpgid_found : ℕ → ℕ → ℕ → ℕ → System → Option (Outcome × System)
unfolding not_permitted walk after_walk regroup
setpgid_found fuel pid t g s =
    if not_permitted t g s
    then some (err eperm, s)
    else if pid != 0 && pid != (the_current s).pid
    then after_walk (walk fuel false t s) t g s
    else some (regroup t g s)

-- The fuel bounds the ancestors of the target that are looked at.
unfoldable pub setpgid : ℕ → ℕ → ℕ → System → Option (Outcome × System)
unfolding target_of group_of setpgid_found
setpgid fuel pid pgid s =
    if negative pid || negative pgid then some (err einval, s) else elim (target_of pid s) [
      | none ↦ some (err esrch, s)
      | some t ↦ elim (group_of pid pgid s) [
        | none ↦ some (err esrch, s)
        | some g ↦ setpgid_found fuel pid t g s
      ]
    ]
