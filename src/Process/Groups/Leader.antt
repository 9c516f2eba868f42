-- ===== src/Process/Groups/Leader.antt =====
-- setsid of src/process_groups.c, and what setpgid does to the count of the members of a group.
use mathlib.Core.Path.{subst}
use unstable_os.Base.{
  Bool-cases, Option-cases, ap, arith, eperm, eqb_false→ne, eqb_refl, eqb→eq, err, false, inl, inr,
  negative, ne→eqb_false, ok, refl, some, sym, ℕ, ◌!=◌, ◌<◌, ◌==◌, ◌^◌, ◌||◌, ◌∙◌, ◌≡◌, ◌≢◌, ◌⊎◌,
}
use unstable_os.Process.Groups.{
  Process, Processes, System, count_members, count_move, group_of, inform_parent, lead, leave, led,
  left_group, move, new_session, not_permitted, regroup, setpgid, setpgid_found, setsid, target_of,
  the_current, update, without_ctty,
}
use unstable_os.Process.Groups.Sessions.{
  Moved, SameGroup, SameGroup-refl, inform_parent-SameGroup, leave-SameGroup, regroup-Moved,
  update-SameGroup,
}

-- The process `a` leads a session and a group of its own and has no terminal. Every other process has
-- the group that it had.
unfoldable pub Leads : ℕ → Processes → Processes → Type 0
Leads a ps qs =
    ((qs a).session ≡ (ps a).pid)
    × ((qs a).pgrp ≡ (ps a).pid)
    × ((qs a).pid ≡ (ps a).pid)
    × ((qs a).pgrp_leader ≡ some a)
    × ((qs a).ctty ≡ 0)
    × ((b : ℕ) → b ≢ a → SameGroup (ps b) (qs b))

-- The caller has the groups and ids that `lead` gives it, behind the two later writes.
new_session_self :
    (s : System)
    → SameGroup
        (lead s.current (leave (the_current s).pgrp_leader s.processes s.current))
        (new_session s s.current)
unfolding new_session
new_session_self s =
    let a = s.current in
    let p = lead a (leave (the_current s).pgrp_leader s.processes a) in
    let at : SameGroup p (led s a) = rw (eqb_refl a) (SameGroup-refl p) in
    update-SameGroup p a without_ctty (inform_parent a (led s)) a
      (inform_parent-SameGroup p a (led s) a at) SameGroup-refl

new_session_others :
    (s : System) (b : ℕ) → b ≢ s.current → SameGroup (s.processes b) (new_session s b)
unfolding new_session
new_session_others s b ne =
    let a = s.current in
    let p = s.processes b in
    let at : SameGroup p (led s b) =
      rw (ne→eqb_false b a ne) (leave-SameGroup (the_current s).pgrp_leader s.processes b) in
    update-SameGroup p a without_ctty (inform_parent a (led s)) b
      (inform_parent-SameGroup p a (led s) b at) SameGroup-refl

new_session_ctty : (s : System) → (new_session s s.current).ctty ≡ 0
unfolding new_session
new_session_ctty s = rw (eqb_refl s.current) refl

setsid-Leads :
    (s : System)
    → (the_current s).pgrp_members ≡ 0
    → (the_current s).pid ≢ (the_current s).pgrp
    → ((setsid s).0 ≡ ok (the_current s).pid) × Leads s.current s.processes (setsid s).1.processes
unfolding setsid Leads
setsid-Leads s none_left ne =
    let same = (leave-SameGroup (the_current s).pgrp_leader s.processes s.current).0 in
    let h = new_session_self s in
    let guard : ((the_current s).pgrp_members != 0 || (the_current s).pid == (the_current s).pgrp)
        ≡ false =
      ground arith in
    rw guard
      (refl, (h.1 ∙ same, h.2 ∙ same, h.0 ∙ same, h.3, new_session_ctty s, new_session_others s))

-- `setsid` fails exactly for the leader of a group and for a process that counts members, and then
-- changes nothing. It succeeds for any other, returns its id, and makes it the leader of a session and
-- a group of its own without a terminal; no other process changes its group or session.
pub setsid_outcome :
    (s : System)
    → ((((the_current s).pgrp_members ≢ 0) ⊎ ((the_current s).pid ≡ (the_current s).pgrp))
        × (setsid s ≡ (err eperm, s)))
      ⊎ (((the_current s).pgrp_members ≡ 0)
          × ((the_current s).pid ≢ (the_current s).pgrp)
          × ((setsid s).0 ≡ ok (the_current s).pid)
          × Leads s.current s.processes (setsid s).1.processes)
setsid_outcome s =
    elim (Bool-cases
      ((the_current s).pgrp_members != 0 || (the_current s).pid == (the_current s).pgrp)) [
        | inl e ↦ inl (
          elim (Bool-cases ((the_current s).pid == (the_current s).pgrp)) [
            | inl k ↦ inr (eqb→eq _ _ k)
            | inr k ↦ inl (ground arith)
          ],
          unfold setsid in rw e refl,
        )
        | inr e ↦
            let m : (the_current s).pgrp_members ≡ 0 = ground arith in
            let n : (the_current s).pid ≢ (the_current s).pgrp = ground arith in
            let l = setsid-Leads s m n in inr (m, n, l.0, l.1)
      ]

inform_parent-members :
    (a : ℕ) (ps : Processes) (b : ℕ) → (inform_parent a ps b).pgrp_members ≡ (ps b).pgrp_members
unfolding inform_parent
inform_parent-members a ps b = elim (Bool-cases (b == (ps a).parent)) [
  | inl e ↦ rw e refl
  | inr e ↦ rw e refl
]

update_self : (a : ℕ) (f : Process → Process) (ps : Processes) → update a f ps a ≡ f (ps a)
update_self a f ps = rw (eqb_refl a) refl

count_move-members : (a : ℕ) (ps : Processes) → (count_move a a ps a).pgrp_members ≡ 0
unfolding count_move
count_move-members a ps =
    rw (eqb_refl a)
      (ap (λ p. p.pgrp_members) (update_self a (count_members (λ n. 0)) (left_group a ps)))

move-members : (a : ℕ) (ps : Processes) → (move a a ps a).pgrp_members ≡ 0
unfolding move
move-members a ps =
    ap (λ p. p.pgrp_members)
      (update_self a (λ p. record p { pgrp_leader = some a; pgrp = (ps a).pid })
        (count_move a a ps))
    ∙ count_move-members a ps

kept :
    (s : System)
    → (the_current s).pgrp_leader ≡ some s.current
    → (the_current s).pgrp ≡ (the_current s).pid
    → (b : ℕ) → SameGroup (s.processes b) ((regroup s.current s.current s).1.processes b)
unfolding Moved
kept s leads own b =
    let a = s.current in
    let m = regroup-Moved a a s in
    elim (Bool-cases (b == a)) [
      | inl e ↦
          subst (λ x. SameGroup (s.processes x) ((regroup a a s).1.processes x))
            (sym (eqb→eq b a e)) ((m.0 a).0, (m.0 a).1, m.2 ∙ sym own, m.1 ∙ sym leads)
      | inr e ↦ m.3 b (eqb_false→ne b a e)
    ]

-- A group leader that does not lead its session and calls `setpgid(0, 0)` stays in its group, and so
-- does every other process, but the count of the members of the group is 0 afterwards whatever it was.
pub setpgid_forgets_members :
    (fuel : ℕ) (s : System)
    → (the_current s).pgrp_leader ≡ some s.current
    → (the_current s).pgrp ≡ (the_current s).pid
    → (the_current s).pid ≢ (the_current s).session
    → (s' : System) × (setpgid fuel 0 0 s ≡ some (ok 0, s'))
      × ((the_current s').pgrp_members ≡ 0)
      × ((b : ℕ) → SameGroup (s.processes b) (s'.processes b))
unfolding setpgid setpgid_found target_of group_of not_permitted regroup
setpgid_forgets_members fuel s leads own ne =
    let guard : ((the_current s).pid == (the_current s).session) ≡ false = ground arith in
    let here : ((the_current s).session != (the_current s).session) ≡ false = ground arith in
    (
      (regroup s.current s.current s).1,
      rw (guard, here) refl,
      inform_parent-members s.current (move s.current s.current s.processes) s.current
          ∙ move-members s.current s.processes,
      kept s leads own,
    )

group_of_self : (pid : ℕ) (s : System) → group_of pid (the_current s).pid s ≡ some s.current
unfolding group_of
group_of_self pid s = elim (Bool-cases ((the_current s).pid == 0)) [
  | inl e ↦ rw e refl
  | inr e ↦ rw (e, eqb_refl (the_current s).pid) refl
]

-- A `pgid` of 0 means the group of the caller, whatever process `pid` names: the call does the same
-- with the caller's id, which is not negative, in its place.
pub setpgid_zero :
    (fuel pid : ℕ) (s : System)
    → (the_current s).pid < 2 ^ 31
    → setpgid fuel pid 0 s ≡ setpgid fuel pid (the_current s).pid s
unfolding setpgid
setpgid_zero fuel pid s h =
    let positive : negative (the_current s).pid ≡ false = ground arith in
    elim (Bool-cases (negative pid)) [
      | inl e ↦ rw e refl
      | inr e ↦ elim (Option-cases (target_of pid s)) [
        | inl t ↦ rw (e, positive, t) refl
        | inr (t, ht) ↦ rw (e, positive, ht, group_of_self pid s) (unfold group_of in refl)
      ]
    ]
