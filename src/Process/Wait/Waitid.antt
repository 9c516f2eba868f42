-- ===== src/Process/Wait/Waitid.antt =====
-- `sys_waitid` of src/kernel_wait.c.
use mathlib.Core.Option
use unstable_os.Process.Signals.Parts.{cld_continued, cld_stopped}
use unstable_os.Base.{
  Bool, List, Option, Option-cases, Outcome, [], echild, eintr, einval, err, false, flag,
  if◌then◌else◌, inl, inr, none, not, ok, some, true, ℕ, ◌!=◌, ◌&&◌, ◌==◌, ◌||◌, ◌∷◌, ◌≡◌,
}
use unstable_os.Process.Signals.{Siginfo, si_user, sigchld}
use unstable_os.Process.Wait.{Child, Family, Wake, find_in_list, noted, reap, wcontinued, wnohang}

-- `P_PID`, `P_PGID` and `P_ALL`; any other type gives EINVAL.
pub data IdType : Type 0 where
  p_pid p_pgid p_all : IdType

unfoldable pub is_named : Family → IdType → ℕ → Child → Bool
is_named f p_pid id c = c.parent == f.current_process && c.pid == id
is_named f p_pgid id c = c.parent == f.current_process && c.pgrp == id
is_named f p_all id c = c.parent == f.current_process

-- `WEXITED`, `WNOWAIT` and `WSTOPPED`
abbrev pub wexited : ℕ → Bool
wexited options = flag 3 options

abbrev pub wnowait : ℕ → Bool
wnowait options = flag 4 options

abbrev pub wstopped : ℕ → Bool
wstopped options = flag 5 options

-- `waitid_remaining_child`, and the loop over the zombies.
unfoldable pub first_named : Family → IdType → ℕ → List Child → Option Child
first_named f t id [] = none
first_named f t id (c ∷ cs) =
    let rest = first_named f t id cs in if is_named f t id c then some c else rest

-- The loop over the living processes.
unfoldable pub first_waited : Family → IdType → ℕ → ℕ → List Child → Option Child
first_waited f t id options [] = none
first_waited f t id options (c ∷ cs) =
    let rest = first_waited f t id options cs in
    if not c.pending_waiting
      || ((c.do_cleanup && not (wexited options)) || (c.is_stopped && not (wstopped options)))
    then rest
    else if is_named f t id c
    then some c
    else rest

-- A child, and whether it was found in the list of living processes.
unfoldable pub get_child : Family → IdType → ℕ → ℕ → Option (Bool × Child)
get_child f t id options =
    let living = Option.map (λ c. (true, c)) (first_waited f t id options f.process_list) in
    if wexited options
    then elim (first_named f t id f.zombie_list) [ none ↦ living | some c ↦ some (false, c) ]
    else living

-- The call sleeps, or it has returned, with what it has written through `infop`.
pub data WaitedId : Type 0 where
  asleep_id : Family → WaitedId
  returned_id : Outcome → Option Siginfo → Family → WaitedId

unfoldable pub found_id : ℕ → Bool × Child → Family → WaitedId
found_id options (living, c) f =
    returned_id (ok 0) (some c.pending_sigchld_info)
      (if wnowait options then f else if living then noted c.address f else reap c f)

unfoldable pub id_round : IdType → ℕ → ℕ → Family → WaitedId → WaitedId
id_round t id options f later = elim (get_child f t id options) [
  | some found ↦ found_id options found f
  | none ↦ elim (first_named f t id f.process_list) [
    | none ↦ returned_id (err echild) none f
    | some c ↦ if wnohang options then returned_id (ok 0) none f else later
  ]
]

-- `find_in_list` for the child that the signal names, unless `WNOWAIT` is set.
unfoldable pub noted_child : ℕ → ℕ → Family → Family
noted_child options pid f =
    if wnowait options
    then f
    else elim (find_in_list f pid f.process_list) [ none ↦ f | some c ↦ noted c.address f ]

unfoldable pub interrupted_id : ℕ → Wake → WaitedId → WaitedId
interrupted_id options w again =
    let f = w.family in
    let told = returned_id (ok 0) (some w.info) (noted_child options w.info.pid f) in
    if w.info.signo != sigchld || si_user w.info.code
    then returned_id (err eintr) none f
    else if w.info.code == cld_stopped
    then (if wstopped options then told else returned_id (err eintr) none f)
    else if w.info.code == cld_continued
    then (if wcontinued options then told else returned_id (err eintr) none f)
    else again

unfoldable pub id_loop : List Wake → IdType → ℕ → ℕ → Family → WaitedId
id_loop [] t id options f = id_round t id options f (asleep_id f)
id_loop (w ∷ ws) t id options f =
    let again = id_loop ws t id options w.family in
    id_round t id options f (if w.has_eintr then interrupted_id options w again else again)

-- Other bits than those of the options that are known are cleared, which changes no test.
unfoldable pub waitid : List Wake → IdType → ℕ → ℕ → Family → WaitedId
waitid ws t id options f =
    if not (wcontinued options || (wexited options || wstopped options))
    then returned_id (err einval) none f
    else id_loop ws t id options f

-- The state in which a call has left off is one that it has seen.
pub data IsSeen : Family → List Wake → WaitedId → Type 0 where
  at_start :
      {f : Family} {ws : List Wake} {o : Outcome} {i : Option Siginfo}
      → IsSeen f ws (returned_id o i f)
  before_sleep : {f : Family} {ws : List Wake} → IsSeen f ws (asleep_id f)
  at_wake :
      {f : Family} {w : Wake} {ws : List Wake} {r : WaitedId}
      → IsSeen w.family ws r
      → IsSeen f (w ∷ ws) r

if_IsSeen :
    {f : Family} {ws : List Wake} (b : Bool) {x y : WaitedId}
    → IsSeen f ws x
    → IsSeen f ws y
    → IsSeen f ws (if b then x else y)
if_IsSeen true p q = p
if_IsSeen false p q = q

round-IsSeen :
    (t : IdType) (id options : ℕ) (f : Family) (ws : List Wake) (later : WaitedId)
    → wnowait options ≡ true
    → IsSeen f ws later
    → IsSeen f ws (id_round t id options f later)
unfolding id_round found_id
round-IsSeen t id options f ws later e h = elim (Option-cases (get_child f t id options)) [
  | inr (found, g) ↦ rw (id_round, g, e) at_start
  | inl g ↦ elim (Option-cases (first_named f t id f.process_list)) [
    | inl p ↦ rw (id_round, g, p) at_start
    | inr (c, p) ↦ rw (id_round, g, p) (if_IsSeen _ at_start h)
  ]
]

interrupted-IsSeen :
    (options : ℕ) (w : Wake) (ws : List Wake) (again : WaitedId)
    → wnowait options ≡ true
    → IsSeen w.family ws again
    → IsSeen w.family ws (interrupted_id options w again)
unfolding interrupted_id noted_child
interrupted-IsSeen options w ws again e h = rw e (search (if_IsSeen, at_start))

loop-IsSeen :
    (ws : List Wake) (t : IdType) (id options : ℕ) (f : Family)
    → wnowait options ≡ true
    → IsSeen f ws (id_loop ws t id options f)
unfolding id_loop
loop-IsSeen [] t id options f e = round-IsSeen t id options f [] _ e before_sleep
loop-IsSeen (w ∷ ws) t id options f e =
    let h = loop-IsSeen ws t id options w.family e in
    round-IsSeen t id options f (w ∷ ws) _ e
      (if_IsSeen _ (at_wake (interrupted-IsSeen options w ws _ e h)) (at_wake h))

-- With `WNOWAIT`, `waitid` changes neither list, no child and no count, however it ends and however often it
-- sleeps: it leaves the state that it found at its start or at a wake-up.
pub waitid-IsSeen :
    (ws : List Wake) (t : IdType) (id options : ℕ) (f : Family)
    → wnowait options ≡ true
    → IsSeen f ws (waitid ws t id options f)
unfolding waitid
waitid-IsSeen ws t id options f e = if_IsSeen _ at_start (loop-IsSeen ws t id options f e)
