-- ===== src/Process/Signals/Changes.antt =====
-- The writes that dispatch of a signal makes, src/kernel_signals.c, and what all of them keep.
use mathlib.Core.Option
use unstable_os.Process.Signals.Parts.{
  handled, or_else, or_queued, take_signal, unscheduled, wakened,
}
use unstable_os.Base.{
  Bool, Bool-cases, Option, arith, false, if◌then◌else◌, inl, inr, ltb, ltb_false→le, none, refl,
  some, suc, true, zero, ℕ, ◌+◌, ◌||◌, ◌≡◌, ◌≤◌,
}
use unstable_os.Process.Signals.{
  Siginfo, SignalProcess, Table, Undefined, change, change_thread, queue_remove, queue_up, sigcont,
  sigstop, sigtstp,
}
use unstable_os.Process.Signals.Dispatch.{
  apply_default_action, continue, dispatch_process, dispatch_thread, force_kernel_sigs, hand_over,
  offer, offer_all, parent_cont, parent_killed, parent_stop, parent_told, signal_body,
  signal_process, stop, terminate, wake_waiters,
}

-- One write to a process.
pub data Change (u : Undefined) : (SignalProcess → SignalProcess) → Type 0 where
  told : (s : Siginfo) → Change u (λ p. record p { pending_sigchld_info = s })
  told_killed :
      (s : Siginfo) (w : ℕ)
      → Change u (λ p. record p { pending_sigchld_info = s; postmortem_wstatus = w })
  forced : (i : ℕ) → Change u (λ p. change_thread i unscheduled (record p { do_cleanup = 1 }))
  dies : Change u (λ p. record p { do_cleanup = 1; pending_waiting = true })
  goes_on : Change u (λ p. record p { is_stopped = false; pending_waiting = true })
  stops : Change u (λ p. record p { is_stopped = true; pending_waiting = true })
  drops : (sig : ℕ) → Change u (queue_remove u sig)
  drops_stops : Change u (λ p. queue_remove u sigtstp (queue_remove u sigstop p))
  queues : (s : Siginfo) → s.signo ≤ 64 → Change u (queue_up u s)
  takes : (i : ℕ) (s : Siginfo) → s.signo ≤ 64 → Change u (take_signal u i s)
  runs : (i : ℕ) → Change u (change_thread i wakened)

-- What holds of the result, if there is one.
pub data Holds {ℓ} {A : Type ℓ} (inv : A → Type 0) : Option A → Type ℓ where
  no_result : Holds inv none
  result : {t : A} → inv t → Holds inv (some t)

pub held : {A : Type 0} {inv : A → Type 0} {x : A} → Holds inv (some x) → inv x
held (result h) = h

abbrev pub Second : (Table → Type 0) → Bool × Table → Type 0
Second inv (b, t) = inv t

pub if_Holds {ℓ} :
    {A : Type ℓ} {inv : A → Type 0} (b : Bool) {x y : Option A}
    → Holds inv x
    → Holds inv y
    → Holds inv (if b then x else y)
if_Holds true p q = p
if_Holds false p q = q

pub if_either {ℓ} :
    {A : Type ℓ} (inv : A → Type 0) (b : Bool) {x y : A} → inv x → inv y → inv (if b then x else y)
if_either inv true p q = p
if_either inv false p q = q

or_true : (b : Bool) → (b || true) ≡ true
or_true true = refl
or_true false = refl

module _ (u : Undefined) (inv : Table → Type 0)
    (closed : (f : SignalProcess → SignalProcess) (a : ℕ) (t : Table)
      → Change u f
      → inv t
      → inv (change a f t))
    (notify : ℕ → Siginfo → Table → Option Table)
    (told-Holds : (a : ℕ) (s : Siginfo) (t : Table)
      → s.signo ≤ 64
      → inv t
      → Holds inv (notify a s t)) where
  handled-Holds : {o : Option Table} → Holds inv o → Holds (Second inv) (handled o)
  handled-Holds no_result = no_result
  handled-Holds (result h) = result h

  map-Holds :
      {f : SignalProcess → SignalProcess} (a : ℕ) {o : Option Table}
      → Change u f
      → Holds inv o
      → Holds inv (Option.map (change a f) o)
  map-Holds a c no_result = no_result
  map-Holds a c (result {t = t} h) = result (closed _ a t c h)

  or_else-Holds :
      {o : Option (Bool × Table)} {k : Table → Option (Bool × Table)}
      → Holds (Second inv) o
      → ((t : Table) → inv t → Holds (Second inv) (k t))
      → Holds (Second inv) (or_else o k)
  or_else-Holds no_result g = no_result
  or_else-Holds (result {t = (true, t)} h) g = result h
  or_else-Holds (result {t = (false, t)} h) g = g t h

  or_queued-Holds :
      (a : ℕ) {f : SignalProcess → SignalProcess} {o : Option (Bool × Table)}
      → Change u f
      → Holds (Second inv) o
      → Holds inv (or_queued (change a f) o)
  or_queued-Holds a c no_result = no_result
  or_queued-Holds a c (result {t = (true, t)} h) = result h
  or_queued-Holds a c (result {t = (false, t)} h) = result (closed _ a t c h)

  parent_told-Holds :
      (code a : ℕ) (info : Siginfo) (t : Table)
      → inv t
      → Holds inv (parent_told u notify code a info t)
  unfolding parent_told
  parent_told-Holds code a info t h =
      let c = closed _ a t (told _) h in if_Holds _ (result c) (told-Holds _ _ _ (omega arith) c)

  pub parent_killed-Holds :
      (a : ℕ) (info : Siginfo) (t : Table) → inv t → Holds inv (parent_killed u notify a info t)
  unfolding parent_killed
  parent_killed-Holds a info t h =
      let c = closed _ a t (told_killed _ _) h in
      if_Holds _ (result c) (told-Holds _ _ _ (omega arith) c)

  force_kernel_sigs-Holds :
      (a i : ℕ) (info : Siginfo) (t : Table)
      → inv t
      → Holds (Second inv) (force_kernel_sigs u notify a i info t)
  unfolding force_kernel_sigs
  force_kernel_sigs-Holds a i info t h =
      if_Holds _ (handled-Holds (parent_killed-Holds a info _ (closed _ a t (forced i) h)))
        (result h)

  terminate-Holds :
      (a : ℕ) (info : Siginfo) (t : Table)
      → inv t
      → Holds (Second inv) (terminate u notify a info t)
  unfolding terminate
  terminate-Holds a info t h = handled-Holds (parent_killed-Holds a info _ (closed _ a t dies h))

  continue-Holds :
      (a : ℕ) (info : Siginfo) (t : Table) → inv t → Holds (Second inv) (continue u notify a info t)
  unfolding continue parent_cont
  continue-Holds a info t h =
      handled-Holds
        (map-Holds a drops_stops (parent_told-Holds _ a info _ (closed _ a t goes_on h)))

  stop-Holds :
      (a : ℕ) (info : Siginfo) (t : Table) → inv t → Holds (Second inv) (stop u notify a info t)
  unfolding stop parent_stop
  stop-Holds a info t h =
      handled-Holds
        (map-Holds a (drops sigcont) (parent_told-Holds _ a info _ (closed _ a t stops h)))

  pub apply_default_action-Holds :
      (a i : ℕ) (info : Siginfo) (t : Table)
      → inv t
      → Holds (Second inv) (apply_default_action u notify a i info t)
  unfolding apply_default_action
  apply_default_action-Holds a i info t h =
      let left_over : Holds (Second inv) (some (false, t)) = result h in
      let dealt_with : Holds (Second inv) (some (true, t)) = result h in
      let forced_first =
        or_else-Holds {k = λ t'. some (true, t')} (force_kernel_sigs-Holds a i info t h)
          (λ t' h'. result h') in
      search (if_Holds, terminate-Holds, continue-Holds, stop-Holds) depth 12

  hand_over-Holds :
      (a i : ℕ) (info : Siginfo) (q : Bool) (t : Table)
      → info.signo ≤ 64
      → inv t
      → Holds (Second inv) (hand_over u notify a i info q t)
  unfolding hand_over
  hand_over-Holds a i info q t le h =
      let queued : inv (if q then change a (queue_up u info) t else t) =
        if_either inv q (closed _ a t (queues info le) h) h in
      let taken : inv (change a (take_signal u i info) t) = closed _ a t (takes i info le) h in
      search (if_Holds, result)

  dispatch_thread-Holds :
      (a i : ℕ) (info : Siginfo) (q : Bool) (t : Table)
      → info.signo ≤ 64
      → inv t
      → Holds (Second inv) (dispatch_thread u notify a i info q t)
  unfolding dispatch_thread
  dispatch_thread-Holds a i info q t le h =
      let ignored : Holds (Second inv) (some (true, t)) = result h in
      search
        (
          if_Holds, or_else-Holds, terminate-Holds, continue-Holds, stop-Holds,
          force_kernel_sigs-Holds, hand_over-Holds,
        )
        depth 12

  then-Holds :
      {o : Option (Bool × Table)} (k : Bool → Table → Option Table)
      → Holds (Second inv) o
      → ((b : Bool) (t : Table) → inv t → Holds inv (k b t))
      → Holds inv (elim o [ none ↦ none | some (b, t) ↦ k b t ])
  then-Holds k no_result g = no_result
  then-Holds k (result {t = (b, t)} h) g = g b t h

  wake_waiters-Holds :
      (n i : ℕ) (sent : Bool) (a : ℕ) (info : Siginfo) (t : Table)
      → info.signo ≤ 64
      → inv t
      → Holds inv (wake_waiters u notify n i sent a info t)
  unfolding wake_waiters
  wake_waiters-Holds zero i sent a info t le h = result h
  wake_waiters-Holds (suc n) i sent a info t le h =
      let rest = wake_waiters-Holds n (i + 1) in
      if_Holds _ (rest sent a info t le h) (
        if_Holds sent (rest sent a info _ le (closed _ a t (runs i) h)) (
          then-Holds _ (dispatch_thread-Holds a i info false t le h)
            (λ b t' h'. rest b a info _ le (closed _ a t' (runs i) h'))))

  offer-Holds :
      (n i a : ℕ) (info : Siginfo) (t : Table)
      → info.signo ≤ 64
      → inv t
      → Holds (Second inv) (offer u notify n i a info t)
  unfolding offer
  offer-Holds zero i a info t le h = result h
  offer-Holds (suc n) i a info t le h = if_Holds _ (offer-Holds n (i + 1) a info t le h) (
      or_else-Holds (dispatch_thread-Holds a i info false t le h)
        (λ t' h'. offer-Holds n (i + 1) a info t' le h'))

  offer_all-Holds :
      (a : ℕ) (info : Siginfo) (t : Table)
      → info.signo ≤ 64
      → inv t
      → Holds inv (offer_all u notify a info t)
  unfolding offer_all
  offer_all-Holds a info t le h = or_queued-Holds a (queues info le) (offer-Holds _ 0 a info t le h)

  woken-Holds :
      (a : ℕ) (info : Siginfo) {o : Option Table}
      → info.signo ≤ 64
      → Holds inv o
      → Holds inv (elim o [ none ↦ none | some t' ↦ offer_all u notify a info t' ])
  woken-Holds a info le no_result = no_result
  woken-Holds a info le (result {t = t} h) = offer_all-Holds a info t le h

  signal_body-Holds :
      (a : ℕ) (info : Siginfo) (t : Table) → inv t → Holds inv (signal_body u notify a info t)
  unfolding signal_body dispatch_process
  signal_body-Holds a info t h = elim (Bool-cases (ltb 64 info.signo)) [
    | inl e ↦ rw (e, or_true) (result h)
    | inr e ↦
        let le : info.signo ≤ 64 = ltb_false→le _ _ e in
        if_Holds _ (result h) (
          if_Holds _ (woken-Holds a info le (wake_waiters-Holds _ 0 false a info t le h))
            (offer_all-Holds a info t le h))
  ]

module _ (u : Undefined) (inv : Table → Type 0)
    (closed : (f : SignalProcess → SignalProcess) (a : ℕ) (t : Table)
      → Change u f
      → inv t
      → inv (change a f t)) where
  -- What every write keeps, a signal to a process keeps.
  pub signal_process-Holds :
      (n a : ℕ) (info : Siginfo) (t : Table) → inv t → Holds inv (signal_process u n a info t)
  unfolding signal_process
  signal_process-Holds zero a info t h = no_result
  signal_process-Holds (suc n) a info t h =
      signal_body-Holds u inv closed (signal_process u n)
        (λ b s t' le. signal_process-Holds n b s t') a info t h
