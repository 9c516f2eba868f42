-- ===== src/Process/Groups/Sessions.antt =====
-- What setsid and setpgid of src/process_groups.c leave of the groups and sessions.
use unstable_os.Base.{
  Bool, Bool-cases, Errno, Option, Option-cases, Outcome, ap, arith, eacces, einval, eperm,
  eqb_false→ne, eqb_refl, eqb→eq, err, esrch, false, inl, inr, negative, ne→eqb_false, none, ok,
  refl, some, sym, true, ℕ, ◌!=◌, ◌&&◌, ◌<◌, ◌==◌, ◌||◌, ◌∙◌, ◌≡◌, ◌≢◌, ◌⊎◌,
}
use unstable_os.Process.Groups.Ancestors.{Line, setpgid-Line}
use unstable_os.Process.Groups.{
  Process, Processes, System, after_walk, count_members, count_move, group_of, inform_parent,
  informed, leave, leave_unless, left_group, less_one, more_one, move, not_permitted, regroup,
  setpgid, setpgid_found, target_of, the_current, update, walk,
}

-- The two have the same id, session, group and leader.
abbrev pub SameGroup : Process → Process → Type 0
SameGroup p q =
    (q.pid ≡ p.pid) × (q.session ≡ p.session) × (q.pgrp ≡ p.pgrp) × (q.pgrp_leader ≡ p.pgrp_leader)

-- A write that keeps these fields.
pub update-SameGroup :
    (p : Process) (a : ℕ) (f : Process → Process) (ps : Processes) (b : ℕ)
    → SameGroup p (ps b)
    → ((q : Process) → SameGroup q (f q))
    → SameGroup p (update a f ps b)
update-SameGroup p a f ps b h k = elim (Bool-cases (b == a)) [
  | inl e ↦ let s = k (ps b) in rw e (s.0 ∙ h.0, s.1 ∙ h.1, s.2 ∙ h.2, s.3 ∙ h.3)
  | inr e ↦ rw e h
]

pub SameGroup-refl : (p : Process) → SameGroup p p
SameGroup-refl p = (refl, refl, refl, refl)

pub leave-SameGroup : (o : Option ℕ) (ps : Processes) (b : ℕ) → SameGroup (ps b) (leave o ps b)
leave-SameGroup none ps b = SameGroup-refl (ps b)
leave-SameGroup (some l) ps b =
    update-SameGroup (ps b) l (count_members less_one) ps b (SameGroup-refl (ps b)) SameGroup-refl

pub inform_parent-SameGroup :
    (p : Process) (a : ℕ) (ps : Processes) (b : ℕ)
    → SameGroup p (ps b)
    → SameGroup p (inform_parent a ps b)
unfolding inform_parent
inform_parent-SameGroup p a ps b h = update-SameGroup p (ps a).parent informed ps b h SameGroup-refl

leave_unless-SameGroup :
    (t : ℕ) (o : Option ℕ) (ps : Processes) (b : ℕ) → SameGroup (ps b) (leave_unless t o ps b)
unfolding leave_unless
leave_unless-SameGroup t none ps b = SameGroup-refl (ps b)
leave_unless-SameGroup t (some l) ps b = elim (Bool-cases (t == l)) [
  | inl k ↦ rw k (SameGroup-refl (ps b))
  | inr k ↦ rw k (leave-SameGroup (some l) ps b)
]

pub count_move-SameGroup :
    (t g : ℕ) (ps : Processes) (b : ℕ) → SameGroup (ps b) (count_move t g ps b)
unfolding count_move
count_move-SameGroup t g ps b =
    let s = leave_unless-SameGroup t (ps t).pgrp_leader ps b in
    elim (Bool-cases (t == g)) [
      | inl e ↦
          rw e (
            update-SameGroup (ps b) t (count_members (λ n. 0)) (left_group t ps) b s SameGroup-refl)
      | inr e ↦
          rw e (
            update-SameGroup (ps b) g (count_members more_one) (left_group t ps) b s SameGroup-refl)
    ]

-- The target is in the group of `g`, and every other process has the group that it had. All keep
-- their ids and sessions.
unfoldable pub Moved : ℕ → ℕ → Processes → Processes → Type 0
Moved t g ps qs =
    ((b : ℕ) → ((qs b).pid ≡ (ps b).pid) × ((qs b).session ≡ (ps b).session))
    × ((qs t).pgrp_leader ≡ some g)
    × ((qs t).pgrp ≡ (ps g).pid)
    × ((b : ℕ) → b ≢ t → SameGroup (ps b) (qs b))

pub regroup-Moved : (t g : ℕ) (s : System) → Moved t g s.processes (regroup t g s).1.processes
unfolding regroup move Moved
regroup-Moved t g s =
    let m = count_move-SameGroup t g s.processes in
    let after = move t g s.processes in
    let i =
      λ (b : ℕ). inform_parent-SameGroup (after b) s.current after b (SameGroup-refl (after b)) in
    (
      λ b. elim (Bool-cases (b == t)) [
        | inl e ↦ ((i b).0 ∙ rw e (m b).0, (i b).1 ∙ rw e (m b).1)
        | inr e ↦ ((i b).0 ∙ rw e (m b).0, (i b).1 ∙ rw e (m b).1)
      ],
      (i t).3 ∙ rw (eqb_refl t) refl,
      (i t).2 ∙ rw (eqb_refl t) refl,
      λ b ne.
          inform_parent-SameGroup (s.processes b) s.current after b
            (rw (ne→eqb_false b t ne) (m b)),
    )

-- `setpgid` moved the process that `pid` names to the group that `pgid` names: both are in the
-- caller's session, and the process does not lead it.
unfoldable pub IsGranted : ℕ → ℕ → System → System → Type 0
IsGranted pid pgid s s' =
    (t : ℕ) × (g : ℕ) × (target_of pid s ≡ some t)
    × (group_of pid pgid s ≡ some g)
    × ((s.processes t).session ≡ (the_current s).session)
    × ((s.processes g).session ≡ (the_current s).session)
    × ((s.processes t).pid ≢ (s.processes t).session)
    × Moved t g s.processes s'.processes

abbrev Outcomes : ℕ → ℕ → System → Option (Outcome × System) → Type 0
Outcomes pid pgid s o =
    (o ≡ none)
    ⊎ (((e : Errno) × (o ≡ some (err e, s)))
        ⊎ ((s' : System) × (o ≡ some (ok 0, s')) × IsGranted pid pgid s s'))

after_walk-Outcomes :
    (w : Option (Bool × Bool)) (pid pgid t g : ℕ) (s : System)
    → Outcomes pid pgid s (some (regroup t g s))
    → Outcomes pid pgid s (after_walk w t g s)
unfolding after_walk
after_walk-Outcomes none pid pgid t g s h = inl refl
after_walk-Outcomes (some (exec, true)) pid pgid t g s h = inr (inl (esrch, refl))
after_walk-Outcomes (some (true, false)) pid pgid t g s h = inr (inl (eacces, refl))
after_walk-Outcomes (some (false, false)) pid pgid t g s h = h

regroup-Outcomes :
    (pid pgid t g : ℕ) (s : System)
    → target_of pid s ≡ some t
    → group_of pid pgid s ≡ some g
    → not_permitted t g s ≡ false
    → Outcomes pid pgid s (some (regroup t g s))
unfolding IsGranted not_permitted
regroup-Outcomes pid pgid t g s ht hg n = inr (
    inr (
      (regroup t g s).1,
      unfold regroup in refl,
      (t, g, ht, hg, ground arith, ground arith, ground arith, regroup-Moved t g s),
    ))

setpgid_found-Outcomes :
    (fuel pid pgid t g : ℕ) (s : System)
    → target_of pid s ≡ some t
    → group_of pid pgid s ≡ some g
    → Outcomes pid pgid s (setpgid_found fuel pid t g s)
unfolding setpgid_found
setpgid_found-Outcomes fuel pid pgid t g s ht hg = elim (Bool-cases (not_permitted t g s)) [
  | inl e ↦ rw e (inr (inl (eperm, refl)))
  | inr e ↦
      let moved = regroup-Outcomes pid pgid t g s ht hg e in
      elim (Bool-cases (pid != 0 && pid != (the_current s).pid)) [
        | inl k ↦ rw (e, k) (after_walk-Outcomes (walk fuel false t s) pid pgid t g s moved)
        | inr k ↦ rw (e, k) moved
      ]
]

setpgid-any : (fuel pid pgid : ℕ) (s : System) → Outcomes pid pgid s (setpgid fuel pid pgid s)
unfolding setpgid
setpgid-any fuel pid pgid s = elim (Bool-cases (negative pid || negative pgid)) [
  | inl e ↦ rw e (inr (inl (einval, refl)))
  | inr e ↦ elim (Option-cases (target_of pid s)) [
    | inl t ↦ rw (e, t) (inr (inl (esrch, refl)))
    | inr (t, ht) ↦ elim (Option-cases (group_of pid pgid s)) [
      | inl g ↦ rw (e, ht, g) (inr (inl (esrch, refl)))
      | inr (g, hg) ↦ rw (e, ht, hg) (setpgid_found-Outcomes fuel pid pgid t g s ht hg)
    ]
  ]
]

-- An error with nothing changed, or a success.
abbrev pub Ended : ℕ → ℕ → System → Option (Outcome × System) → Type 0
Ended pid pgid s o =
    ((e : Errno) × (o ≡ some (err e, s)))
    ⊎ ((s' : System) × (o ≡ some (ok 0, s')) × IsGranted pid pgid s s')

-- If the process that `pid` names is `n` steps below the caller or the process with id 0, and the fuel is
-- more than `n`: `setpgid` either reports an error and changes nothing, or succeeds and moves the
-- process that `pid` names to the group that `pgid` names. Then both are in the caller's session, the
-- process does not lead its session, and no other process changes its group, leader or session.
pub setpgid-Outcomes :
    (fuel n pid pgid : ℕ) (s : System)
    → ((t : ℕ) → target_of pid s ≡ some t → Line s t n)
    → n < fuel
    → Ended pid pgid s (setpgid fuel pid pgid s)
setpgid-Outcomes fuel n pid pgid s line enough =
    let (r, e) = setpgid-Line fuel n pid pgid s line enough in
    elim (setpgid-any fuel pid pgid s) [
      | inl stuck ↦ absurd (not_none (sym stuck ∙ e))
      | inr ended ↦ ended
    ]
  where
    not_none : {r : Outcome × System} → none ≢ some r
    not_none q = cc

-- A process that has a leader is in the leader's session, in the group that has the leader's id.
unfoldable pub GroupsHold : Processes → Type 0
GroupsHold ps =
    (a l : ℕ)
    → (ps a).pgrp_leader ≡ some l
    → ((ps a).session ≡ (ps l).session) × ((ps a).pgrp ≡ (ps l).pid)

some_injective : (a b : ℕ) → some a ≡ some b → a ≡ b
some_injective a b e = ap (λ o. elim o [ none ↦ a | some c ↦ c ]) e

Moved-GroupsHold :
    (t g : ℕ) (ps qs : Processes)
    → (ps t).session ≡ (ps g).session
    → Moved t g ps qs
    → GroupsHold ps
    → GroupsHold qs
unfolding Moved GroupsHold
Moved-GroupsHold t g ps qs e m h a l k = elim (Bool-cases (a == t)) [
  | inl q ↦
      let at = eqb→eq a t q in
      let gl = some_injective g l (sym m.1 ∙ sym (ap (λ x. (qs x).pgrp_leader) at) ∙ k) in
      (
        ap (λ x. (qs x).session) at ∙ (m.0 t).1 ∙ e ∙ sym (m.0 g).1 ∙ ap (λ x. (qs x).session) gl,
        ap (λ x. (qs x).pgrp) at ∙ m.2 ∙ sym (m.0 g).0 ∙ ap (λ x. (qs x).pid) gl,
      )
  | inr q ↦
      let s = m.3 a (eqb_false→ne a t q) in
      let i = h a l (sym s.3 ∙ k) in (s.1 ∙ i.0 ∙ sym (m.0 l).1, s.2 ∙ i.1 ∙ sym (m.0 l).0)
]

IsGranted-GroupsHold :
    (pid pgid : ℕ) (s s' : System)
    → IsGranted pid pgid s s'
    → GroupsHold s.processes
    → GroupsHold s'.processes
unfolding IsGranted
IsGranted-GroupsHold pid pgid s s' (t, g, ht, hg, st, sg, ne, m) h =
    Moved-GroupsHold t g s.processes s'.processes (st ∙ sym sg) m h

-- If the process that `pid` names is `n` steps below the caller or the process with id 0, and the fuel is
-- more than `n`: `setpgid` returns, and if every process that has a leader was in the leader's session and
-- group before, every one is so after it.
pub setpgid-GroupsHold :
    (fuel n pid pgid : ℕ) (s : System)
    → ((t : ℕ) → target_of pid s ≡ some t → Line s t n)
    → n < fuel
    → GroupsHold s.processes
    → (r : Outcome) × (s' : System) × (setpgid fuel pid pgid s ≡ some (r, s'))
      × GroupsHold s'.processes
setpgid-GroupsHold fuel n pid pgid s line enough h =
    elim (setpgid-Outcomes fuel n pid pgid s line enough) [
      | inl (e, run) ↦ (err e, s, run, h)
      | inr (s', run, granted) ↦ (ok 0, s', run, IsGranted-GroupsHold pid pgid s s' granted h)
    ]
