-- ===== src/Process/Signals/Killed.antt =====
-- SIGKILL, src/kernel_signals.c.
use mathlib.Core.Path.{subst}
use unstable_os.Process.Signals.Parts.{
  count_of, handled, is_busy, is_deaf, or_else, or_queued, take_signal,
}
use unstable_os.Base.{
  Bool, Bool-cases, Option, arith, eqb_refl, false, inl, inr, ltb, ne→eqb_false, refl, some, suc,
  true, zero, ℕ, ◌+◌, ◌<◌, ◌==◌, ◌||◌, ◌≡◌, ◌≢◌, ◌≤◌,
}
use unstable_os.Process.Signals.{
  Siginfo, SignalProcess, Table, Undefined, change, queue_remove, queue_up, sigchld, sigkill,
}
use unstable_os.Process.Signals.Enough.{signal_process-Ends}
use unstable_os.Process.Signals.Dispatch.{
  dispatch_process, dispatch_thread, offer, offer_all, signal_body, signal_process, terminate,
}
use unstable_os.Process.Signals.Changes.{
  Change, Holds, dies, drops, drops_stops, forced, goes_on, held, if_either, no_result,
  parent_killed-Holds, queues, result, runs, signal_process-Holds, stops, takes, told, told_killed,
}

-- The scheduler is to remove the process.
abbrev pub IsDying : ℕ → Table → Type 0
IsDying a t = (t.processes a).do_cleanup ≢ 0

abbrev Killed : ℕ → Bool × Table → Type 0
Killed a (b, t) = (b ≡ true) × IsDying a t

-- No write takes a process back from its cleanup.
Change-IsDying :
    (u : Undefined) (f : SignalProcess → SignalProcess)
    → Change u f
    → (p : SignalProcess) → p.do_cleanup ≢ 0
    → (f p).do_cleanup ≢ 0
unfolding queue_remove queue_up take_signal
Change-IsDying u f (told x) p h = h
Change-IsDying u f (told_killed x w) p h = h
Change-IsDying u f (forced i) p h = omega arith
Change-IsDying u f dies p h = omega arith
Change-IsDying u f goes_on p h = h
Change-IsDying u f stops p h = h
Change-IsDying u f (drops sig) p h = ground arith
Change-IsDying u f drops_stops p h = ground arith
Change-IsDying u f (queues x le) p h = ground arith
Change-IsDying u f (takes i x le) p h = ground arith
Change-IsDying u f (runs i) p h = h

change-IsDying :
    (u : Undefined) (a : ℕ) (f : SignalProcess → SignalProcess) (b : ℕ) (t : Table)
    → Change u f
    → IsDying a t
    → IsDying a (change b f t)
change-IsDying u a f b t c h =
    if_either {A = SignalProcess} (λ p. p.do_cleanup ≢ 0) (a == b) (Change-IsDying u f c _ h) h

module _ (u : Undefined) (n a : ℕ) (info : Siginfo) (kill_signal : info.signo ≡ sigkill) where
  terminate-Killed : (t : Table) → Holds (Killed a) (terminate u (signal_process u n) a info t)
  unfolding terminate
  terminate-Killed t = killed_handled (
      parent_killed-Holds u (IsDying a) (change-IsDying u a) (signal_process u n)
        (λ b s t' le. signal_process-Holds u (IsDying a) (change-IsDying u a) n b s t') a info _
        (rw (eqb_refl a) (omega arith)))
    where
      killed_handled : {o : Option Table} → Holds (IsDying a) o → Holds (Killed a) (handled o)
      killed_handled no_result = no_result
      killed_handled (result h) = result (refl, h)

  dispatch_thread-kill :
      (i : ℕ) (t : Table)
      → a ≢ t.init_task
      → dispatch_thread u (signal_process u n) a i info false t
        ≡ terminate u (signal_process u n) a info t
  unfolding dispatch_thread
  dispatch_thread-kill i t ni = rw (kill_signal, ne→eqb_false a _ ni) refl

  taken_Killed :
      {o : Option (Bool × Table)} (k : Table → Option (Bool × Table))
      → Holds (Killed a) o
      → Holds (Killed a) (or_else o k)
  taken_Killed k no_result = no_result
  taken_Killed k (result {t = (true, t)} h) = result h
  taken_Killed k (result {t = (false, t)} h) = absurd (cc h.0)

  -- The first thread that has no signal to handle takes the call.
  offer-Killed :
      (k i j : ℕ) (t : Table)
      → a ≢ t.init_task
      → i ≤ j
      → j < i + k
      → is_busy a j t ≡ false
      → Holds (Killed a) (offer u (signal_process u n) k i a info t)
  unfolding offer
  offer-Killed zero i j t ni le lt idle = absurd (omega arith)
  offer-Killed (suc k) i j t ni le lt idle = elim (Bool-cases (is_busy a i t)) [
    | inl b ↦
        let further : i ≢ j = λ e. let same : is_busy a i t ≡ false = rw e idle in cc in
        rw b (offer-Killed k (i + 1) j t ni (omega (arith, further)) (omega arith) idle)
    | inr b ↦ rw (b, dispatch_thread-kill i t ni) (taken_Killed _ (terminate-Killed t))
  ]

  offered-IsDying :
      {o : Option (Bool × Table)} (k : Table → Table)
      → Holds (Killed a) o
      → Holds (IsDying a) (or_queued k o)
  offered-IsDying k no_result = no_result
  offered-IsDying k (result {t = (true, t)} h) = result h.1
  offered-IsDying k (result {t = (false, t)} h) = absurd (cc h.0)

  body-IsDying :
      (j : ℕ) (t : Table)
      → a ≢ t.init_task
      → is_deaf (t.processes a) ≡ false
      → j < (t.processes a).thread_count
      → is_busy a j t ≡ false
      → Holds (IsDying a) (signal_body u (signal_process u n) a info t)
  unfolding signal_body dispatch_process offer_all
  body-IsDying j t ni alive lt idle =
      let valid : (info.signo == 0 || ltb 64 info.signo) ≡ false = rw kill_signal refl in
      let no_chld : (info.signo == sigchld) ≡ false = rw kill_signal refl in
      rw (valid, alive, no_chld)
        (offered-IsDying _ (offer-Killed (count_of a t) 0 j t ni (omega arith) (omega arith) idle))

-- SIGKILL to a living process of the users that is not init, some thread of which has no signal to handle:
-- with the fuel 2 there is a result, in which the process waits for its cleanup, whatever its masks and
-- handlers are.
pub signal_process-IsDying :
    (u : Undefined) (n a j : ℕ) (info : Siginfo) (t : Table)
    → info.signo ≡ sigkill
    → a ≢ t.init_task
    → is_deaf (t.processes a) ≡ false
    → j < (t.processes a).thread_count
    → is_busy a j t ≡ false
    → (t' : Table) × (signal_process u (suc (suc n)) a info t ≡ some t') × IsDying a t'
unfolding signal_process
signal_process-IsDying u n a j info t e ni alive lt idle =
    let (t', first, more) = signal_process-Ends u n a info t in
    (
      t',
      more,
      held (subst (Holds (IsDying a)) more (body-IsDying u (suc n) a info e j t ni alive lt idle)),
    )
