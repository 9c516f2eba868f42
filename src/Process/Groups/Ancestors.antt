-- ===== src/Process/Groups/Ancestors.antt =====
-- The loop of setpgid of src/process_groups.c over the ancestors of its target ends.
use unstable_os.Base.{
  Bool, Bool-cases, Option-cases, Outcome, arith, eacces, einval, eperm, err, esrch, false, inl,
  inr, negative, refl, some, suc, true, zero, ℕ, ◌!=◌, ◌&&◌, ◌<◌, ◌==◌, ◌||◌, ◌≡◌,
}
use unstable_os.Process.Groups.{
  System, after_walk, group_of, not_permitted, regroup, setpgid, setpgid_found, target_of,
  the_current, walk,
}

-- From the process `a` it takes `n` steps to a parent to get to the caller or to the process with id 0.
pub data Line (s : System) : ℕ → ℕ → Type 0 where
  ends : {a : ℕ} → ((s.processes a).pid != 0 && a != s.current) ≡ false → Line s a 0
  climbs : {a n : ℕ} → Line s (s.processes a).parent n → Line s a (suc n)

walk-Line :
    (fuel n : ℕ) (exec : Bool) (a : ℕ) (s : System)
    → Line s a n
    → n < fuel
    → (r : Bool × Bool) × (walk fuel exec a s ≡ some r)
unfolding walk
walk-Line zero n exec a s d h = absurd (omega arith)
walk-Line (suc fuel) zero exec a s (ends e) h = ((exec, (s.processes a).pid == 0), rw e refl)
walk-Line (suc fuel) (suc n) exec a s (climbs d) h =
    elim (Bool-cases ((s.processes a).pid != 0 && a != s.current)) [
      | inl e ↦
          let rest =
            walk-Line fuel n (exec || (s.processes a).after_exec) (s.processes a).parent s d
              (omega arith) in
          (rest.0, rw e rest.1)
      | inr e ↦ ((exec, (s.processes a).pid == 0), rw e refl)
    ]

after_walk-some :
    (w : Bool × Bool) (t g : ℕ) (s : System)
    → (r : Outcome × System) × (after_walk (some w) t g s ≡ some r)
unfolding after_walk
after_walk-some (exec, true) t g s = ((err esrch, s), refl)
after_walk-some (true, false) t g s = ((err eacces, s), refl)
after_walk-some (false, false) t g s = (regroup t g s, refl)

setpgid_found-Line :
    (fuel n pid t g : ℕ) (s : System)
    → Line s t n
    → n < fuel
    → (r : Outcome × System) × (setpgid_found fuel pid t g s ≡ some r)
unfolding setpgid_found
setpgid_found-Line fuel n pid t g s d h = elim (Bool-cases (not_permitted t g s)) [
  | inl e ↦ ((err eperm, s), rw e refl)
  | inr e ↦ elim (Bool-cases (pid != 0 && pid != (the_current s).pid)) [
    | inl k ↦
        let w = walk-Line fuel n false t s d h in
        let r = after_walk-some w.0 t g s in (r.0, rw (e, k, w.1) r.1)
    | inr k ↦ (regroup t g s, rw (e, k) refl)
  ]
]

-- If the process that `pid` names is `n` steps below the caller or the process with id 0, `setpgid`
-- returns with fuel for more than `n` rounds.
pub setpgid-Line :
    (fuel n pid pgid : ℕ) (s : System)
    → ((t : ℕ) → target_of pid s ≡ some t → Line s t n)
    → n < fuel
    → (r : Outcome × System) × (setpgid fuel pid pgid s ≡ some r)
unfolding setpgid
setpgid-Line fuel n pid pgid s d h = elim (Bool-cases (negative pid || negative pgid)) [
  | inl e ↦ ((err einval, s), rw e refl)
  | inr e ↦ elim (Option-cases (target_of pid s)) [
    | inl t ↦ ((err esrch, s), rw (e, t) refl)
    | inr (t, ht) ↦ elim (Option-cases (group_of pid pgid s)) [
      | inl g ↦ ((err esrch, s), rw (e, ht, g) refl)
      | inr (g, hg) ↦
          let r = setpgid_found-Line fuel n pid t g s (d t ht) h in (r.0, rw (e, ht, hg) r.1)
    ]
  ]
]
