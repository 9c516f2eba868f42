-- ===== src/Process/Signals/Returns.antt =====
-- The fuel of the calls that signal many processes, src/kernel_signals.c.
use unstable_os.Base.{
  Bool, List, Option, Option-cases, Outcome, [], false, inl, inr, none, refl, some, suc, true, ℕ,
  ◌∷◌,
}
use unstable_os.Process.Signals.{Siginfo, Table, Undefined}
use unstable_os.Process.Signals.Enough.{Same, if_Same, signal_process-Ends}
use unstable_os.Process.Signals.Kill.{
  found_any, kill, returns, send_found, signal_group, signal_send_every, signal_send_process,
  signal_send_process_group, user_info,
}
use unstable_os.Rbtree.{search_exact}

returns-Same : {m m' : Option Table} (o : Outcome) → Same m m' → Same (returns o m) (returns o m')
returns-Same o (t, e, e') = rw (e, e') ((o, t), refl, refl)

found_any-Same : {m m' : Option (Bool × Table)} → Same m m' → Same (found_any m) (found_any m')
found_any-Same ((true, t), e, e') = rw (e, e') (_, refl, refl)
found_any-Same ((false, t), e, e') = rw (e, e') (_, refl, refl)

next-Same {ℓ} :
    {A : Type ℓ} {m m' : Option Table} {k k' : Table → Option A}
    → Same m m'
    → ((t : Table) → Same (k t) (k' t))
    → Same (elim m [ none ↦ none | some t ↦ k t ]) (elim m' [ none ↦ none | some t ↦ k' t ])
next-Same (t, e, e') g = rw (e, e') (g t)

module _ (u : Undefined) (n : ℕ) (info : Siginfo) where
  found-Same :
      (a : ℕ) (t : Table) → Same (send_found u 2 a info t) (send_found u (suc (suc n)) a info t)
  unfolding send_found
  found-Same a t = search (if_Same, returns-Same, signal_process-Ends)

  send-Same :
      (pid : ℕ) (t : Table)
      → Same (signal_send_process u 2 pid info t) (signal_send_process u (suc (suc n)) pid info t)
  unfolding signal_send_process
  send-Same pid t = elim (Option-cases (search_exact t.process_tree pid)) [
    | inl e ↦ rw (signal_send_process, e) (_, refl, refl)
    | inr (a, e) ↦ rw (signal_send_process, e) (found-Same a t)
  ]

  group-Same :
      (pgrp : ℕ) (perms found : Bool) (ps : List ℕ) (t : Table)
      → Same
          (signal_group u 2 pgrp info perms found ps t)
          (signal_group u (suc (suc n)) pgrp info perms found ps t)
  unfolding signal_group
  group-Same pgrp perms found [] t = (_, refl, refl)
  group-Same pgrp perms found (a ∷ rest_of) t =
      let sent =
        next-Same (signal_process-Ends u n a info t) (group-Same pgrp perms true rest_of) in
      let skipped = group-Same pgrp perms found rest_of t in search if_Same

  every-Same :
      (ps : List ℕ) (t : Table)
      → Same (signal_send_every u 2 info ps t) (signal_send_every u (suc (suc n)) info ps t)
  unfolding signal_send_every
  every-Same [] t = (t, refl, refl)
  every-Same (a ∷ rest_of) t = next-Same (signal_process-Ends u n a info t) (every-Same rest_of)

-- `kill` ends for any id and signal: the fuel 2 gives a result, and any more fuel the same one.
pub kill-Ends :
    (u : Undefined) (n pid sig : ℕ) (t : Table)
    → Same (kill u 2 pid sig t) (kill u (suc (suc n)) pid sig t)
unfolding kill signal_send_process_group
kill-Ends u n pid sig t =
    let info = user_info sig 0 in
    search (if_Same, send-Same, found_any-Same, group-Same, returns-Same, every-Same) depth 12
