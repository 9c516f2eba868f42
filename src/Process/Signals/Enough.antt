-- ===== src/Process/Signals/Enough.antt =====
-- The fuel of `signal_process`, src/kernel_signals.c: `__signal_process` calls itself for the parent
-- only, with SIGCHLD.
use mathlib.Core.Option
use unstable_os.Process.Signals.Parts.{
  cannot_take, handled, is_forced, is_ignored, is_kept, or_else, or_queued, take_signal,
}
use unstable_os.Base.{
  Bool, Option, arith, false, if◌then◌else◌, none, refl, some, suc, true, zero, ℕ, ◌==◌, ◌≡◌, ◌≢◌,
}
use unstable_os.Process.Signals.{Siginfo, Table, Undefined, sigchld}
use unstable_os.Process.Signals.Dispatch.{
  continue, dispatch_process, dispatch_thread, force_kernel_sigs, hand_over, offer, offer_all,
  parent_cont, parent_killed, parent_stop, parent_told, signal_body, signal_process, stop,
  terminate, wake_waiters,
}

-- Both runs end, with the same result.
abbrev pub Same {ℓ} : {A : Type ℓ} → Option A → Option A → Type ℓ
Same {A = A} o o' = (x : A) × (o ≡ some x) × (o' ≡ some x)

pub if_Same {ℓ} :
    {A : Type ℓ} {x x' y y' : Option A} (b : Bool)
    → (b ≡ true → Same x x')
    → (b ≡ false → Same y y')
    → Same (if b then x else y) (if b then x' else y')
if_Same true f g = f refl
if_Same false f g = g refl

or_else-Same :
    {o o' : Option (Bool × Table)} {k k' : Table → Option (Bool × Table)}
    → Same o o'
    → ((t : Table) → Same (k t) (k' t))
    → Same (or_else o k) (or_else o' k')
or_else-Same ((true, t), e, e') h = rw (e, e') ((true, t), refl, refl)
or_else-Same ((false, t), e, e') h = rw (e, e') (h t)

handled-Same : {o o' : Option Table} → Same o o' → Same (handled o) (handled o')
handled-Same (t, e, e') = rw (e, e') ((true, t), refl, refl)

map-Same :
    {o o' : Option Table} (f : Table → Table) → Same o o' → Same (Option.map f o) (Option.map f o')
map-Same f (t, e, e') = rw (e, e') (f t, refl, refl)

-- Two ways to signal the parent that agree on SIGCHLD, if the signal is another one.
abbrev Agree : (f g : ℕ → Siginfo → Table → Option Table) → Siginfo → Type 0
Agree f g info =
    info.signo ≢ sigchld
    → (a : ℕ) (told : Siginfo) (t : Table) → told.signo ≡ sigchld
    → Same (f a told t) (g a told t)

is_forced_lem : (sig : ℕ) → is_forced sig ≡ true → sig ≢ sigchld
unfolding is_forced
is_forced_lem sig e = ground arith

other_than_chld : (sig n : ℕ) → (sig == n) ≡ true → (n == sigchld) ≡ false → sig ≢ sigchld
other_than_chld sig n e ne = ground arith

or_queued-Same :
    {o o' : Option (Bool × Table)} (k : Table → Table)
    → Same o o'
    → Same (or_queued k o) (or_queued k o')
or_queued-Same k ((true, t), e, e') = rw (e, e') (t, refl, refl)
or_queued-Same k ((false, t), e, e') = rw (e, e') (k t, refl, refl)

module _ (u : Undefined) (f g : ℕ → Siginfo → Table → Option Table) (info : Siginfo)
    (agree : Agree f g info) where
  told-Same :
      (code a : ℕ) (t : Table)
      → info.signo ≢ sigchld
      → Same (parent_told u f code a info t) (parent_told u g code a info t)
  unfolding parent_told
  told-Same code a t ne = search (if_Same, agree, ne)

  killed-Same :
      (a : ℕ) (t : Table)
      → info.signo ≢ sigchld
      → Same (parent_killed u f a info t) (parent_killed u g a info t)
  unfolding parent_killed
  killed-Same a t ne = search (if_Same, agree, ne)

  forced-Same :
      (a i : ℕ) (t : Table)
      → Same (force_kernel_sigs u f a i info t) (force_kernel_sigs u g a i info t)
  unfolding force_kernel_sigs
  forced-Same a i t = search (if_Same, handled-Same, killed-Same, is_forced_lem)

  terminate-Same :
      (a : ℕ) (t : Table)
      → info.signo ≢ sigchld
      → Same (terminate u f a info t) (terminate u g a info t)
  unfolding terminate
  terminate-Same a t ne = search (handled-Same, killed-Same, ne)

  continue-Same :
      (a : ℕ) (t : Table)
      → info.signo ≢ sigchld
      → Same (continue u f a info t) (continue u g a info t)
  unfolding continue parent_cont
  continue-Same a t ne = search (handled-Same, map-Same, told-Same, ne)

  stop-Same :
      (a : ℕ) (t : Table) → info.signo ≢ sigchld → Same (stop u f a info t) (stop u g a info t)
  unfolding stop parent_stop
  stop-Same a t ne = search (handled-Same, map-Same, told-Same, ne)

  hand_over-Same :
      (a i : ℕ) (q : Bool) (t : Table)
      → Same (hand_over u f a i info q t) (hand_over u g a i info q t)
  unfolding hand_over is_ignored cannot_take take_signal
  hand_over-Same a i q t = search if_Same

  dispatch_thread-Same :
      (a i : ℕ) (q : Bool) (t : Table)
      → Same (dispatch_thread u f a i info q t) (dispatch_thread u g a i info q t)
  unfolding dispatch_thread is_kept
  dispatch_thread-Same a i q t =
      search
        (
          if_Same, or_else-Same, terminate-Same, continue-Same, stop-Same, forced-Same,
          hand_over-Same, other_than_chld,
        )
        depth 12

  wake_waiters-Same :
      (n i : ℕ) (sent : Bool) (a : ℕ) (t : Table)
      → Same (wake_waiters u f n i sent a info t) (wake_waiters u g n i sent a info t)
  unfolding wake_waiters
  wake_waiters-Same zero i sent a t = (t, refl, refl)
  wake_waiters-Same (suc n) i sent a t =
      let ((done, t'), e, e') = dispatch_thread-Same a i false t in
      rw (e, e') (search (if_Same, wake_waiters-Same n))

  offer-Same : (n i a : ℕ) (t : Table) → Same (offer u f n i a info t) (offer u g n i a info t)
  unfolding offer
  offer-Same zero i a t = ((false, t), refl, refl)
  offer-Same (suc n) i a t = search (if_Same, or_else-Same, dispatch_thread-Same, offer-Same n)

  offer_all-Same : (a : ℕ) (t : Table) → Same (offer_all u f a info t) (offer_all u g a info t)
  unfolding offer_all
  offer_all-Same a t = search (or_queued-Same, offer-Same)

  waited-Same :
      (a : ℕ) (t : Table)
      → Same
          (elim (wake_waiters u f (t.processes a).thread_count 0 false a info t) [
            | none ↦ none
            | some t' ↦ offer_all u f a info t'
          ])
          (elim (wake_waiters u g (t.processes a).thread_count 0 false a info t) [
            | none ↦ none
            | some t' ↦ offer_all u g a info t'
          ])
  waited-Same a t =
      let (t', e, e') = wake_waiters-Same (t.processes a).thread_count 0 false a t in
      rw (e, e') (offer_all-Same a t')

  signal_body-Same :
      (a : ℕ) (t : Table) → Same (signal_body u f a info t) (signal_body u g a info t)
  unfolding signal_body dispatch_process
  signal_body-Same a t = search (if_Same, waited-Same, offer_all-Same)

-- SIGCHLD leaves the parent alone.
chld-Same :
    (u : Undefined) (f g : ℕ → Siginfo → Table → Option Table) (a : ℕ) (info : Siginfo) (t : Table)
    → info.signo ≡ sigchld
    → Same (signal_body u f a info t) (signal_body u g a info t)
chld-Same u f g a info t e = signal_body-Same u f g info (λ ne. absurd (ne e)) a t

-- A signal to a process ends within two calls of `__signal_process`: the fuel 2 gives a result, and any
-- more fuel the same one.
pub signal_process-Ends :
    (u : Undefined) (n a : ℕ) (info : Siginfo) (t : Table)
    → Same (signal_process u 2 a info t) (signal_process u (suc (suc n)) a info t)
unfolding signal_process
signal_process-Ends u n a info t =
    signal_body-Same u (signal_process u 1) (signal_process u (suc n)) info
      (λ ne b told t' e. chld-Same u (signal_process u 0) (signal_process u n) b told t' e) a t
