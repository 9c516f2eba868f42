-- ===== src/Process/Wait/Childless.antt =====
-- When `sys_waitpid` of src/kernel_wait.c fails with ECHILD.
use unstable_os.Base.{
  Bool, Option-cases, [], echild, err, false, if◌then◌else◌, inl, inr, ne→eqb_false, none, ok, refl,
  some, sym, true, ℕ, ◌↔◌, ◌∙◌, ◌≡◌, ◌≢◌,
}
use unstable_os.Process.Wait.{
  Child, Family, asleep, find_in_list, find_unwaited, noted, returned, wait_loop, wait_round,
  waitpid, wnohang, wstatus_of,
}
use unstable_os.Process.Wait.Reaped.{NoneMeant, NoneMeant-find_in_list, no_child, round_zombie}

some_zombie :
    (pid options : ℕ) (f : Family) (c : Child)
    → find_in_list f pid f.zombie_list ≡ some c
    → wait_round pid options f (asleep f) ≢ returned (err echild) none f
some_zombie pid options f c z e = absurd (cc (round_zombie pid options f (asleep f) c z))

some_pending :
    (pid options : ℕ) (f : Family) (c : Child)
    → find_in_list f pid f.zombie_list ≡ none
    → find_unwaited f pid f.process_list ≡ some c
    → wait_round pid options f (asleep f)
      ≡ returned (ok c.pid) (some (wstatus_of c)) (noted c.address f)
unfolding wait_round
some_pending pid options f c z u = rw (wait_round, z, u) refl

some_living :
    (pid options : ℕ) (f : Family) (c : Child)
    → find_in_list f pid f.zombie_list ≡ none
    → find_unwaited f pid f.process_list ≡ none
    → find_in_list f pid f.process_list ≡ some c
    → wait_round pid options f (asleep f)
      ≡ (if wnohang options then returned (ok 0) none f else asleep f)
unfolding wait_round
some_living pid options f c z u p = rw (wait_round, z, u, p) refl

-- A call that fails so has no child to wait for.
failed-NoneMeant :
    (pid options : ℕ) (f : Family)
    → wait_round pid options f (asleep f) ≡ returned (err echild) none f
    → NoneMeant f pid f.zombie_list × NoneMeant f pid f.process_list
failed-NoneMeant pid options f e = elim (Option-cases (find_in_list f pid f.zombie_list)) [
  | inr (c, z) ↦ absurd (some_zombie pid options f c z e)
  | inl z ↦ elim (Option-cases (find_unwaited f pid f.process_list)) [
    | inr (c, u) ↦ absurd (cc (some_pending pid options f c z u))
    | inl u ↦ elim (Option-cases (find_in_list f pid f.process_list)) [
      | inr (c, p) ↦
          absurd (still_there (wnohang options) (sym (some_living pid options f c z u p) ∙ e))
      | inl p ↦ (NoneMeant-find_in_list f pid _ z, NoneMeant-find_in_list f pid _ p)
    ]
  ]
]
  where
    still_there :
        (b : Bool) → (if b then returned (ok 0) none f else asleep f) ≢ returned (err echild) none f
    still_there true h = cc
    still_there false h = cc

-- `waitpid` for another id than the caller's fails at once with ECHILD, changing nothing, exactly when
-- neither the zombies nor the living processes hold a child that it names; it never sleeps then.
pub waitpid-NoneMeant :
    (pid options : ℕ) (f : Family)
    → pid ≢ f.current_pid
    → (waitpid [] pid options f ≡ returned (err echild) none f)
      ↔ (NoneMeant f pid f.zombie_list × NoneMeant f pid f.process_list)
unfolding waitpid wait_loop
waitpid-NoneMeant pid options f ne =
    rw (ne→eqb_false pid f.current_pid ne)
      (failed-NoneMeant pid options f, λ (z, p). no_child [] pid options f z p)
