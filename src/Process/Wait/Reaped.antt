-- ===== src/Process/Wait/Reaped.antt =====
-- Which children `sys_waitpid` of src/kernel_wait.c reports.
use mathlib.Core.Path.{subst}
use unstable_os.Base.{
  Bool, Bool-cases, List, Option-cases, [], ap, echild, eqb_refl, err, false, if◌then◌else◌, inl,
  inr, length, map, ne→eqb_false, none, ok, refl, some, suc, sym, true, zero, ℕ, ◌&&◌, ◌-◌, ◌==◌,
  ◌^◌, ◌∙◌, ◌∷◌, ◌≡◌, ◌≢◌,
}
use unstable_os.Process.Wait.{
  Child, Family, Waited, Wake, asleep, find_in_list, find_unwaited, is_meant, reap, returned,
  unlink, wait_loop, wait_round, waitpid, wstatus_of,
}

-- None of the children is one that the call names.
pub NoneMeant : Family → ℕ → List Child → Type 0
NoneMeant f pid [] = Unit
NoneMeant f pid (c ∷ cs) = (is_meant f pid c ≡ false) × NoneMeant f pid cs

find_in_list-NoneMeant :
    (f : Family) (pid : ℕ) (cs : List Child) → NoneMeant f pid cs → find_in_list f pid cs ≡ none
unfolding find_in_list NoneMeant
find_in_list-NoneMeant f pid [] h = refl
find_in_list-NoneMeant f pid (c ∷ cs) (e, h) = rw e (find_in_list-NoneMeant f pid cs h)

pub NoneMeant-find_in_list :
    (f : Family) (pid : ℕ) (cs : List Child) → find_in_list f pid cs ≡ none → NoneMeant f pid cs
unfolding find_in_list NoneMeant
NoneMeant-find_in_list f pid [] e = tt
NoneMeant-find_in_list f pid (c ∷ cs) e = elim (Bool-cases (is_meant f pid c)) [
  | inl m ↦ absurd cc
  | inr m ↦ (m, NoneMeant-find_in_list f pid cs cc)
]

find_unwaited-NoneMeant :
    (f : Family) (pid : ℕ) (cs : List Child) → NoneMeant f pid cs → find_unwaited f pid cs ≡ none
unfolding find_unwaited NoneMeant
find_unwaited-NoneMeant f pid [] h = refl
find_unwaited-NoneMeant f pid (c ∷ cs) (e, h) =
    rw (e, and_false c.pending_waiting) (find_unwaited-NoneMeant f pid cs h)
  where
    and_false : (b : Bool) → (b && false) ≡ false
    and_false true = refl
    and_false false = refl

-- A round that finds no child.
round_childless :
    (pid options : ℕ) (f : Family) (later : Waited)
    → find_in_list f pid f.zombie_list ≡ none
    → find_unwaited f pid f.process_list ≡ none
    → find_in_list f pid f.process_list ≡ none
    → wait_round pid options f later ≡ returned (err echild) none f
unfolding wait_round
round_childless pid options f later z u p = rw (wait_round, z, u, p) refl

pub no_child :
    (ws : List Wake) (pid options : ℕ) (f : Family)
    → NoneMeant f pid f.zombie_list
    → NoneMeant f pid f.process_list
    → wait_loop ws pid options f ≡ returned (err echild) none f
unfolding wait_loop
no_child [] pid options f z p =
    round_childless pid options f _ (find_in_list-NoneMeant f pid _ z)
      (find_unwaited-NoneMeant f pid _ p) (find_in_list-NoneMeant f pid _ p)
no_child (w ∷ ws) pid options f z p =
    round_childless pid options f _ (find_in_list-NoneMeant f pid _ z)
      (find_unwaited-NoneMeant f pid _ p) (find_in_list-NoneMeant f pid _ p)

-- The caller's first zombie.
pub round_zombie :
    (pid options : ℕ) (f : Family) (later : Waited) (c : Child)
    → find_in_list f pid f.zombie_list ≡ some c
    → wait_round pid options f later ≡ returned (ok c.pid) (some (wstatus_of c)) (reap c f)
unfolding wait_round
round_zombie pid options f later c z = rw (wait_round, z) refl

-- The reaped child leaves `zombie_list`; the lists and the caller stay otherwise.
abbrev Keeps : Child → Family → Family → Type 0
Keeps c f f' =
    (f'.zombie_list ≡ unlink c.address f.zombie_list)
    × (f'.current_process ≡ f.current_process)
    × (f'.current_pid ≡ f.current_pid)
    × (f'.process_list ≡ f.process_list)

reap-Keeps : (c : Child) (f : Family) → Keeps c f (reap c f)
unfolding reap
reap-Keeps c f = elim (Option-cases (f.process_tree c.pid)) [
  | inl e ↦ rw (reap, e) (refl, refl, refl, refl)
  | inr (a, e) ↦ elim (Bool-cases (a == c.address)) [
    | inl same ↦ rw (reap, e, same) (refl, refl, refl, refl)
    | inr unmet ↦ rw (reap, e, unmet) (refl, refl, refl, refl)
  ]
]

-- The children of a process in a list, and the others.
unfoldable pub ours : ℕ → List Child → List Child
ours a [] = []
ours a (c ∷ cs) = let rest = ours a cs in if c.parent == a then c ∷ rest else rest

unfoldable pub others : ℕ → List Child → List Child
others a [] = []
others a (c ∷ cs) = let rest = others a cs in if c.parent == a then rest else c ∷ rest

-- The processes of a list are at different addresses.
unfoldable pub NotAt : ℕ → List Child → Type 0
NotAt a [] = Unit
NotAt a (c ∷ cs) = (c.address ≢ a) × NotAt a cs

unfoldable pub Apart : List Child → Type 0
Apart [] = Unit
Apart (c ∷ cs) = NotAt c.address cs × Apart cs

abbrev pub any_child : ℕ
any_child = 2 ^ 32 - 1

any_meant : (f : Family) (c : Child) → is_meant f any_child c ≡ (c.parent == f.current_process)
unfolding is_meant
any_meant f c = and_true _
  where
    and_true : (b : Bool) → (b && true) ≡ b
    and_true true = refl
    and_true false = refl

-- What taking out the first child leaves.
record Taken (f : Family) (cs : List Child) (c : Child) : Type 0 where
  found : find_in_list f any_child cs ≡ some c
  first : ours f.current_process cs ≡ c ∷ ours f.current_process (unlink c.address cs)
  left : others f.current_process (unlink c.address cs) ≡ others f.current_process cs
  apart : Apart (unlink c.address cs)
  not_at : (a : ℕ) → NotAt a cs → (c.address ≢ a) × NotAt a (unlink c.address cs)

take_first :
    (f : Family) (cs : List Child) (c : Child) (rest : List Child)
    → Apart cs
    → ours f.current_process cs ≡ c ∷ rest
    → Taken f cs c
unfolding find_in_list ours others Apart NotAt unlink
take_first f [] c rest h e = absurd cc
take_first f (d ∷ cs) c rest (away, h) e = elim (Bool-cases (d.parent == f.current_process)) [
  | inl own ↦
      let same : d ≡ c = cc in
      subst (Taken f (d ∷ cs)) same (record {
        found = rw (any_meant f d, own) refl;
        first = rw (eqb_refl d.address, own) refl;
        left = rw (eqb_refl d.address, own) refl;
        apart = rw (eqb_refl d.address) h;
        not_at = λ a n. rw (eqb_refl d.address) n;
      })
  | inr unmet ↦
      let t = take_first f cs c rest h cc in
      let (ne, away') = t.not_at d.address away in
      let apart_from : (d.address == c.address) ≡ false = ne→eqb_false _ _ (λ x. ne (sym x)) in
      record {
        found = rw (any_meant f d, unmet) t.found;
        first = rw (apart_from, unmet) t.first;
        left = rw (apart_from, unmet) (ap (λ l. d ∷ l) t.left);
        apart = rw apart_from (away', t.apart);
        not_at = λ a n. let (p, q) = t.not_at a n.1 in rw apart_from (p, (n.0, q));
      }
]

-- `waitpid(-1, NULL, WNOHANG)`, so many times: the ids that come back, and the state at the end.
unfoldable pub wait_times : ℕ → Family → List ℕ × Family
wait_times zero f = ([], f)
wait_times (suc n) f = elim (waitpid [] any_child 4 f) [
  | asleep f' ↦ ([], f')
  | returned (err e) status f' ↦ ([], f')
  | returned (ok p) status f' ↦ let later = wait_times n f' in (p ∷ later.0, later.1)
]

waits_for :
    (f : Family) (c : Child)
    → f.current_pid ≢ any_child
    → find_in_list f any_child f.zombie_list ≡ some c
    → waitpid [] any_child 4 f ≡ returned (ok c.pid) (some (wstatus_of c)) (reap c f)
unfolding waitpid wait_loop
waits_for f c ne z =
    rw (ne→eqb_false any_child f.current_pid (λ e. ne (sym e))) (round_zombie any_child 4 f _ c z)

-- What so many waits have done.
abbrev pub IsReaped : List Child → Family → List ℕ × Family → Type 0
IsReaped cs f r =
    (r.0 ≡ map (λ c. c.pid) cs)
    × (ours f.current_process r.1.zombie_list ≡ [])
    × (others f.current_process r.1.zombie_list ≡ others f.current_process f.zombie_list)
    × (r.1.process_list ≡ f.process_list)

-- A process that calls `waitpid(-1, NULL, WNOHANG)` as often as it has children among the zombies, which lie
-- at different addresses, gets the id of each of them once, in the order of the list; then it has no zombie
-- left, and the zombies of other processes and the living processes are as before.
pub wait_times-IsReaped :
    (cs : List Child) (f : Family)
    → Apart f.zombie_list
    → f.current_pid ≢ any_child
    → ours f.current_process f.zombie_list ≡ cs
    → IsReaped cs f (wait_times (length cs) f)
unfolding wait_times
wait_times-IsReaped [] f apart ne e = (refl, e, refl, refl)
wait_times-IsReaped (c ∷ cs) f apart ne e =
    let t = take_first f f.zombie_list c cs apart e in
    let (z, cur, pid, live) = reap-Keeps c f in
    let rest : ours (reap c f).current_process (reap c f).zombie_list ≡ cs =
      rw (cur, z) (rest_eq (sym t.first ∙ e)) in
    let (ids, none_left, same, lives) =
      wait_times-IsReaped cs (reap c f) (rw z t.apart) (rw pid ne) rest in
    let end = (wait_times (length cs) (reap c f)).1 in
    rw (wait_times, waits_for f c ne t.found)
      (
        ap (λ l. c.pid ∷ l) ids,
        subst (λ a. ours a end.zombie_list ≡ []) cur none_left,
        subst (λ a. others a end.zombie_list ≡ others a (reap c f).zombie_list) cur same
            ∙ ap (others f.current_process) z
            ∙ t.left,
        lives ∙ live,
      )
  where
    rest_eq : {x : Child} {xs ys : List Child} → x ∷ xs ≡ x ∷ ys → xs ≡ ys
    rest_eq h = cc
