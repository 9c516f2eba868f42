-- ===== src/Process/Signals/Kept.antt =====
-- That each call of src/kernel_signals.c leaves the signals of all processes sound.
use mathlib.Core.Path.{subst}
use unstable_os.Base.{
  Bool, List, Option, Option-cases, Outcome, [], eperm, err, esrch, false, inl, inr, ltb, none, not,
  ok, some, sym, true, ℕ, ◌-◌, ◌==◌, ◌||◌, ◌∷◌, ◌≡◌,
}
use unstable_os.Process.Signals.{
  Sigaction, Siginfo, Sigset, Table, Undefined, join, safe_mask, sig_mask, sigcont, sigkill,
  sigstop,
}
use unstable_os.Rbtree.{search_exact}
use unstable_os.Process.Signals.Masks.{
  is_how, mask_of, masked_by, set_handler, set_mask, sig_hold, sigaction, sigprocmask, with_handler,
}
use unstable_os.Process.Signals.Kill.{
  found_any, kill, returns, send_found, signal_group, signal_send_every, signal_send_process,
  signal_send_process_group, sigqueue, user_info,
}
use unstable_os.Process.Signals.Sound.{
  AllSound, IsSafe, change-AllSound, change_thread-IsSound, safe_mask-IsSafe,
  signal_process-AllSound,
}
use unstable_os.Process.Signals.Changes.{Holds, held, if_Holds, if_either, no_result, result}

-- What holds of a result holds of the table that a call has returned.
pub at_result :
    {A : Type 0} {inv : A → Type 0} {o : Option A} {t : A} → Holds inv o → o ≡ some t → inv t
at_result h e = held (subst (Holds _) e h)

abbrev Third : {A B : Type 0} → A × B × Table → Type 0
Third (x, y, t) = AllSound t

abbrev Last : Bool × Table → Type 0
Last (b, t) = AllSound t

abbrev Returned : Outcome × Table → Type 0
Returned (o, t) = AllSound t

set_mask-AllSound : (m : Sigset) (t : Table) → AllSound t → AllSound (set_mask (safe_mask m) t)
set_mask-AllSound m t = change-AllSound _ _ t (λ p.
    change_thread-IsSound t.current_thread (λ r. record r { sa_mask = safe_mask m }) p
      (λ r h. safe_mask-IsSafe m) (λ r h. h))

set_handler-AllSound :
    (sig : ℕ) (act : Sigaction) (t : Table) → AllSound t → AllSound (set_handler sig act t)
set_handler-AllSound sig act t = change-AllSound (with_handler sig act) _ t (λ p s. record {
  masks = s.masks;
  handlers = λ k.
      if_either {A = Sigaction} (λ x. IsSafe x.sa_mask) (k == sig - 1)
        (safe_mask-IsSafe act.sa_mask) (s.handlers k);
  plans = s.plans;
  infos = s.infos;
  counted = s.counted;
  bounded = s.bounded;
})

pub sigaction-AllSound :
    (u : Undefined) (sig : ℕ) (act : Sigaction) (b : Bool) (t : Table)
    → AllSound t
    → AllSound (sigaction u sig act b t).2
unfolding sigaction
sigaction-AllSound u sig act b t s = if_either Third (sig == 0 || ltb 64 sig) s (
    if_either Third (sig == sigkill || (sig == sigstop || sig == sigcont)) s (
      if_either Third (act.sa_handler == sig_hold)
        (set_mask-AllSound (join (mask_of t) (sig_mask u sig)) t s)
        (set_handler-AllSound sig act t s)))

pub sigprocmask-AllSound :
    (how : ℕ) (new : Option Sigset) (b : Bool) (t : Table)
    → AllSound t
    → AllSound (sigprocmask how new b t).2
unfolding sigprocmask
sigprocmask-AllSound how none b t s = if_either Third (not (is_how how)) s s
sigprocmask-AllSound how (some m) b t s =
    if_either Third (not (is_how how)) s (set_mask-AllSound (masked_by how (mask_of t) m) t s)

module _ (u : Undefined) (fuel : ℕ) (info : Siginfo) where
  returns-Holds : (o : Outcome) {m : Option Table} → Holds AllSound m → Holds Returned (returns o m)
  returns-Holds o no_result = no_result
  returns-Holds o (result h) = result h

  send_found-Holds : (a : ℕ) (t : Table) → AllSound t → Holds Returned (send_found u fuel a info t)
  unfolding send_found
  send_found-Holds a t s =
      let gone : Holds Returned (some (err esrch, t)) = result s in
      let barred : Holds Returned (some (err eperm, t)) = result s in
      let sent = returns-Holds (ok 0) (signal_process-AllSound u fuel a info t s) in search if_Holds

  send_process-Holds :
      (pid : ℕ) (t : Table) → AllSound t → Holds Returned (signal_send_process u fuel pid info t)
  unfolding signal_send_process
  send_process-Holds pid t s = elim (Option-cases (search_exact t.process_tree pid)) [
    | inl e ↦ rw (signal_send_process, e) (result s)
    | inr (a, e) ↦ rw (signal_send_process, e) (send_found-Holds a t s)
  ]

  next-Holds :
      {A : Type 0} {inv : A → Type 0} {m : Option Table} (k : Table → Option A)
      → Holds AllSound m
      → ((t : Table) → AllSound t → Holds inv (k t))
      → Holds inv (elim m [ none ↦ none | some t ↦ k t ])
  next-Holds k no_result g = no_result
  next-Holds k (result {t = t} h) g = g t h

  group-Holds :
      (pgrp : ℕ) (perms found : Bool) (ps : List ℕ) (t : Table)
      → AllSound t
      → Holds Last (signal_group u fuel pgrp info perms found ps t)
  unfolding signal_group
  group-Holds pgrp perms found [] t s = result s
  group-Holds pgrp perms found (a ∷ rest_of) t s =
      if_Holds _
        (next-Holds _ (signal_process-AllSound u fuel a info t s)
          (group-Holds pgrp perms true rest_of))
        (group-Holds pgrp perms found rest_of t s)

  found_any-Holds : {o : Option (Bool × Table)} → Holds Last o → Holds Returned (found_any o)
  found_any-Holds no_result = no_result
  found_any-Holds (result {t = (true, t)} h) = result h
  found_any-Holds (result {t = (false, t)} h) = result h

  every-Holds :
      (ps : List ℕ) (t : Table) → AllSound t → Holds AllSound (signal_send_every u fuel info ps t)
  unfolding signal_send_every
  every-Holds [] t s = result s
  every-Holds (a ∷ rest_of) t s =
      next-Holds _ (signal_process-AllSound u fuel a info t s) (every-Holds rest_of)

  pub kill-Holds :
      (pid sig : ℕ) (t : Table)
      → info ≡ user_info sig 0
      → AllSound t
      → Holds Returned (kill u fuel pid sig t)
  unfolding kill signal_send_process_group
  kill-Holds pid sig t e s =
      let group : (g : ℕ) → Holds Returned (signal_send_process_group u fuel g info true t) =
        λ g. found_any-Holds (group-Holds g true false t.process_list t s) in
      rw (sym e) (
        if_Holds _ (result s) (
          if_Holds _ (send_process-Holds pid t s) (
            if_Holds _ (group _)
              (if_Holds _ (returns-Holds (ok 0) (every-Holds t.process_list t s)) (group _)))))

  pub sigqueue-Holds :
      (pid sig payload : ℕ) (t : Table)
      → info ≡ user_info sig payload
      → AllSound t
      → Holds Returned (sigqueue u fuel pid sig payload t)
  unfolding sigqueue
  sigqueue-Holds pid sig payload t e s =
      rw (sym e) (if_Holds _ (result s) (send_process-Holds pid t s))
