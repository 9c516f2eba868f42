-- ===== src/Process/Groups/Tests.antt =====
-- The calls on process groups with three processes in one session.
use mathlib.Core.Path.{subst}
use unstable_os.Base.{
  Bool-cases, Outcome, [], ap, arith, err, esrch, false, if◌then◌else◌, inl, inr, none, ok, refl,
  some, sym, ℕ, ◌==◌, ◌∷◌, ◌≡◌, ◌≢◌,
}
use unstable_os.Process.Thread.{waiting}
use unstable_os.Rbtree.{Rbtree, black, leaf, node, red, search_exact}
use unstable_os.Process.Groups.{
  Process, Processes, System, find_process, getpgid, getsid, setpgid, target_of,
}
use unstable_os.Process.Groups.Sessions.{Ended, GroupsHold, setpgid-GroupsHold, setpgid-Outcomes}
use unstable_os.Process.Groups.Ancestors.{Line, climbs, ends}

-- The shell with id 5 leads the session; 7 leads a group, and 9 is a child of it in its group.
abbrev shell : Process
shell = record {
  pid = 5;
  pgrp = 5;
  session = 5;
  ctty = 1;
  pgrp_leader = some 500;
  pgrp_members = 0;
  parent = 100;
  after_exec = false;
  statuses = waiting ∷ [];
}

abbrev job : Process
job = record shell { pid = 7; pgrp = 7; pgrp_leader = some 700; pgrp_members = 1; parent = 500 }

abbrev child : Process
child = record job { pid = 9; pgrp_members = 0; parent = 700 }

abbrev init : Process
init = record shell { pid = 0; pgrp = 0; session = 0; pgrp_leader = none; parent = 100 }

abbrev all_four : Processes
all_four a = if a == 500 then shell else if a == 700 then job else if a == 900 then child else init

abbrev ids : Rbtree
ids = node black 700 7 (node red 500 5 leaf leaf) (node red 900 9 leaf leaf)

abbrev system : System
system = record { processes = all_four; process_tree = ids; current = 700 }

looks_up : getpgid 9 system ≡ ok 7
unfolding getpgid find_process search_exact
looks_up = refl

finds_no_process : getsid 8 system ≡ err esrch
unfolding getsid find_process search_exact
finds_no_process = refl

child-Line : (t : ℕ) → target_of 9 system ≡ some t → Line system t 1
unfolding target_of find_process search_exact
child-Line t h = subst (λ o. Line system o 1) at (climbs (ends refl))
  where
    at : 900 ≡ t
    at = ap (λ o. elim o [ none ↦ 900 | some c ↦ c ]) h

setpgid-Outcomes_example : Ended 9 9 system (setpgid 2 9 9 system)
setpgid-Outcomes_example = setpgid-Outcomes 2 1 9 9 system child-Line (omega arith)

some_process : (a b : ℕ) → some a ≡ some b → a ≡ b
some_process a b e = ap (λ o. elim o [ none ↦ a | some c ↦ c ]) e

system-GroupsHold : GroupsHold system.processes
unfolding GroupsHold
system-GroupsHold a l h = elim (Bool-cases (a == 500)) [
  | inl e ↦ let at = some_process 500 l (rw e at h) in rw (e, sym at) (refl, refl)
  | inr e ↦ elim (Bool-cases (a == 700)) [
    | inl e' ↦ let at = some_process 700 l (rw (e, e') at h) in rw (e, e', sym at) (refl, refl)
    | inr e' ↦ elim (Bool-cases (a == 900)) [
      | inl e'' ↦
          let at = some_process 700 l (rw (e, e', e'') at h) in rw (e, e', e'', sym at) (refl, refl)
      | inr e'' ↦ absurd (no_leader (rw (e, e', e'') at h))
    ]
  ]
]
  where
    no_leader : {l : ℕ} → none ≢ some l
    no_leader q = cc

setpgid-GroupsHold_example :
    (r : Outcome) × (s' : System) × (setpgid 2 9 9 system ≡ some (r, s')) × GroupsHold s'.processes
setpgid-GroupsHold_example =
    setpgid-GroupsHold 2 1 9 9 system child-Line (omega arith) system-GroupsHold
