-- ===== src/Process/Signals/Delivered.antt =====
-- Which thread a signal sent by a process goes to, src/kernel_signals.c, against a direct description.
use unstable_os.Process.Signals.Parts.{
  cannot_take, is_busy, is_deaf, is_ignored, is_kept, or_queued, take_signal,
}
use unstable_os.Base.{
  Bool, Bool-cases, Option, arith, false, if◌then◌else◌, inl, inr, ltb, ne→eqb_false, none, not,
  refl, some, suc, true, zero, ℕ, ◌&&◌, ◌+◌, ◌<◌, ◌==◌, ◌||◌, ◌∙◌, ◌≡◌, ◌≢◌, ◌≤◌,
}
use unstable_os.Process.Signals.{
  Receiver, Siginfo, Table, Undefined, change, queue_up, si_user, sigchld, sigcont, sigkill,
  sigstop, sigtstp,
}
use unstable_os.Process.Signals.Dispatch.{
  dispatch_process, dispatch_thread, hand_over, offer, offer_all, signal_body, signal_process,
}

-- The first of `n` threads from the place `i` on that can take the signal.
pub first_able : Undefined → ℕ → ℕ → ℕ → (ℕ → Receiver) → Option ℕ
first_able u zero i sig ts = none
first_able u (suc n) i sig ts =
    let rest = first_able u n (i + 1) sig ts in
    if not (cannot_take u (ts i) sig) then some i else rest

-- The state once the signal is with that thread, or in the queues of the process.
unfoldable pub placed : Undefined → ℕ → Siginfo → Option ℕ → Table → Table
placed u a info (some i) t = change a (take_signal u i info) t
placed u a info none t = change a (queue_up u info) t

-- A signal that no clause of `signal_dispatch_thread` treats on its own.
abbrev pub IsOrdinary : ℕ → ℕ → Table → Type 0
IsOrdinary sig a t =
    (0 < sig)
    × (sig ≤ 64)
    × (sig ≢ sigkill)
    × (sig ≢ sigcont)
    × (sig ≢ sigstop)
    × (a ≡ t.init_task → sig ≢ sigtstp)

init_takes_it :
    (sig a : ℕ) (t : Table)
    → IsOrdinary sig a t
    → (a == t.init_task && (sig == sigkill || (sig == sigstop || sig == sigtstp))) ≡ false
init_takes_it sig a t o = ground arith

in_range : (sig : ℕ) → (0 < sig) × (sig ≤ 64) → (sig == 0 || ltb 64 sig) ≡ false
in_range sig (pos, le) = ground arith

and_user : (b c : Bool) → c ≡ true → (b && not c) ≡ false
and_user true c e = rw e refl
and_user false c e = refl

module _ (u : Undefined) (notify : ℕ → Siginfo → Table → Option Table) (a : ℕ) (info : Siginfo)
    (t : Table) (ordinary : IsOrdinary info.signo a t) (user : si_user info.code ≡ true) where
  not_special : (k : ℕ) → info.signo ≢ k → (info.signo == k) ≡ false
  not_special k ne = ne→eqb_false _ k ne

  not_kept : (i : ℕ) → is_kept u (t.processes a) i info ≡ false
  unfolding is_kept
  not_kept i = and_user _ _ user

  dispatch_thread-hand_over :
      (i : ℕ) (q : Bool) → dispatch_thread u notify a i info q t ≡ hand_over u notify a i info q t
  unfolding dispatch_thread
  dispatch_thread-hand_over i q =
      let (pos, le, nk, nc, ns, ni) = ordinary in
      rw
        (
          not_special 0 (omega arith),
          init_takes_it _ a t ordinary,
          not_special sigkill nk,
          not_special sigcont nc,
          not_special sigstop ns,
          not_kept i,
        )
        refl

  module _ (heard : is_ignored u (t.processes a) info.signo ≡ false) where
    dispatch_able :
        (i : ℕ)
        → cannot_take u ((t.processes a).threads i) info.signo ≡ false
        → dispatch_thread u notify a i info false t ≡ some (true, change a (take_signal u i info) t)
    unfolding hand_over
    dispatch_able i e = dispatch_thread-hand_over i false ∙ rw (heard, e) refl

    dispatch_unable :
        (i : ℕ)
        → cannot_take u ((t.processes a).threads i) info.signo ≡ true
        → dispatch_thread u notify a i info false t ≡ some (false, t)
    unfolding hand_over
    dispatch_unable i e = dispatch_thread-hand_over i false ∙ rw (heard, e) refl

    able_idle :
        (i : ℕ)
        → cannot_take u ((t.processes a).threads i) info.signo ≡ false
        → is_busy a i t ≡ false
    unfolding cannot_take
    able_idle i e = ground arith

    -- The second loop finds the first thread that can take the signal.
    offer-first_able :
        (n i : ℕ)
        → or_queued (change a (queue_up u info)) (offer u notify n i a info t)
          ≡ some (placed u a info (first_able u n i info.signo (t.processes a).threads) t)
    unfolding offer first_able placed
    offer-first_able zero i = refl
    offer-first_able (suc n) i =
        elim (Bool-cases (cannot_take u ((t.processes a).threads i) info.signo)) [
          | inl e ↦ elim (Bool-cases (is_busy a i t)) [
            | inl b ↦ rw (e, b) (offer-first_able n (i + 1))
            | inr b ↦ rw (e, b, dispatch_unable i e) (offer-first_able n (i + 1))
          ]
          | inr e ↦ rw (e, able_idle i e, dispatch_able i e) refl
        ]

-- A signal other than SIGKILL, SIGCONT and SIGSTOP that a process sends to a living process of the users
-- that does not ignore it, and that is not SIGTSTP to init: the first thread of the process that has no
-- signal to handle, does not mask this one and may be scheduled is to handle it, runs and leaves what it
-- slept on; without such a thread the signal is queued. Nothing else changes; the fuel 1 is enough.
pub signal_process-placed :
    (u : Undefined) (n a : ℕ) (info : Siginfo) (t : Table)
    → IsOrdinary info.signo a t
    → si_user info.code ≡ true
    → is_deaf (t.processes a) ≡ false
    → is_ignored u (t.processes a) info.signo ≡ false
    → signal_process u (suc n) a info t
      ≡ some (
          placed u a info
            (first_able u (t.processes a).thread_count 0 info.signo (t.processes a).threads)
            t)
unfolding signal_process signal_body dispatch_process offer_all
signal_process-placed u n a info t o user alive heard =
    rw
      (
        in_range info.signo (let (pos, le, _, _, _, _) = o in (pos, le)),
        alive,
        and_user (info.signo == sigchld) _ user,
      )
      (offer-first_able u (signal_process u n) a info t o user heard _ 0)
