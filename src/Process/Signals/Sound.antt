-- ===== src/Process/Signals/Sound.antt =====
-- What is always true of the signals of a process, src/kernel_signals.c.
use mathlib.Core.Path.{subst}
use unstable_os.Process.Signals.Parts.{is_waiting, planned, take_signal, unscheduled, wakened}
use unstable_os.Base.{
  Bool, Bool-cases, [], ap, arith, eqb_false→ne, eqb→eq, false, if◌then◌else◌, inl, inr, length,
  length-append, ltb, ltb_false→le, refl, sym, true, ℕ, ◌&&◌, ◌++◌, ◌+◌, ◌-◌, ◌<◌, ◌==◌, ◌||◌, ◌∙◌,
  ◌∷◌, ◌≡◌, ◌≤◌,
}
use unstable_os.Process.Signals.{
  Receiver, Siginfo, SignalProcess, Sigset, Table, Undefined, change, change_thread, is_realtime,
  join, queue_remove, queue_up, safe_mask, sig_mask, sigstop, sigtstp,
}
use unstable_os.Process.Signals.Dispatch.{apply_default_action, signal_process}
use unstable_os.Process.Signals.Changes.{
  Change, Holds, Second, apply_default_action-Holds, dies, drops, drops_stops, forced, goes_on,
  if_either, queues, runs, signal_process-Holds, stops, takes, told, told_killed,
}

-- SIGKILL, SIGCONT and SIGSTOP are not in the mask.
abbrev pub IsSafe : Sigset → Type 0
IsSafe m = (m 8 ≡ false) × (m 17 ≡ false) × (m 18 ≡ false)

-- The signal that a thread is to handle has a number of at most 64.
abbrev pub IsPlanned : Receiver → Type 0
IsPlanned r = r.sa_info.signo ≤ 64

pub record IsSound (p : SignalProcess) : Type 0 where
  pub masks : (i : ℕ) → IsSafe (p.threads i).sa_mask
  pub handlers : (k : ℕ) → IsSafe (p.sa_handlers k).sa_mask
  pub plans : (i : ℕ) → IsPlanned (p.threads i)
  -- A pending standard signal has its own `siginfo_t`.
  pub infos : (i : ℕ) → i < 31 → p.sa_pending i ≡ true → (p.sa_pending_info i).signo ≡ i + 1
  pub counted : p.sa_rt_queue_count ≡ length p.sa_rt_queue
  pub bounded : p.sa_rt_queue_count ≤ 33

abbrev pub AllSound : Table → Type 0
AllSound t = (a : ℕ) → IsSound (t.processes a)

pub safe_mask-IsSafe : (m : Sigset) → IsSafe (safe_mask m)
unfolding safe_mask
safe_mask-IsSafe m = (and_false (m 8), and_false (m 17), and_false (m 18))
  where
    and_false : (b : Bool) → (b && false) ≡ false
    and_false true = refl
    and_false false = refl

-- What every change of one thread keeps, all threads keep.
changed_thread :
    (P : Receiver → Type 0) (i : ℕ) (f : Receiver → Receiver) (p : SignalProcess)
    → ((j : ℕ) → P (p.threads j))
    → ((r : Receiver) → P r → P (f r))
    → (j : ℕ) → P ((change_thread i f p).threads j)
changed_thread P i f p h keep j = if_either P (j == i) (keep _ (h j)) (h j)

-- A change of one thread that keeps its mask and its plan.
pub change_thread-IsSound :
    (i : ℕ) (f : Receiver → Receiver) (p : SignalProcess)
    → ((r : Receiver) → IsSafe r.sa_mask → IsSafe (f r).sa_mask)
    → ((r : Receiver) → IsPlanned r → IsPlanned (f r))
    → IsSound p
    → IsSound (change_thread i f p)
change_thread-IsSound i f p safe planned s = record {
  masks = changed_thread (λ r. IsSafe r.sa_mask) i f p s.masks safe;
  handlers = s.handlers;
  plans = changed_thread IsPlanned i f p s.plans planned;
  infos = s.infos;
  counted = s.counted;
  bounded = s.bounded;
}

and_left : (b c : Bool) → (b && c) ≡ true → b ≡ true
and_left b c e = ground arith

-- A process whose threads, handlers and real-time queue are those of a sound one.
pending-IsSound :
    (m : Sigset) (g : ℕ → Siginfo) (p : SignalProcess)
    → ((i : ℕ) → i < 31 → m i ≡ true → (g i).signo ≡ i + 1)
    → IsSound p
    → IsSound (record p { sa_pending = m; sa_pending_info = g })
pending-IsSound m g p infos s = record {
  masks = s.masks;
  handlers = s.handlers;
  plans = s.plans;
  infos = infos;
  counted = s.counted;
  bounded = s.bounded;
}

realtime-IsSound :
    (info : Siginfo) (p : SignalProcess)
    → ltb 32 p.sa_rt_queue_count ≡ false
    → IsSound p
    → IsSound (record p {
      sa_rt_queue_count = p.sa_rt_queue_count + 1;
      sa_rt_queue = p.sa_rt_queue ++ (info ∷ []);
    })
realtime-IsSound info p room s = record {
  masks = s.masks;
  handlers = s.handlers;
  plans = s.plans;
  infos = s.infos;
  counted = omega (arith, s.counted, length-append p.sa_rt_queue (info ∷ []));
  bounded = omega (arith, ltb_false→le _ _ room);
}

queue_remove-IsSound :
    (u : Undefined) (sig : ℕ) (p : SignalProcess) → IsSound p → IsSound (queue_remove u sig p)
unfolding queue_remove
queue_remove-IsSound u sig p s =
    if_either IsSound (sig == 0 || is_realtime sig) s
      (pending-IsSound _ _ p (λ i lt e. s.infos i lt (and_left _ _ e)) s)

-- The bit that a standard signal sets is its own.
sig_mask_bit :
    (u : Undefined) (sig i : ℕ) → 0 < sig → sig ≤ 31 → sig_mask u sig i ≡ true → sig ≡ i + 1
unfolding sig_mask
sig_mask_bit u sig i pos le e = ground arith

below_realtime :
    (sig : ℕ) → sig ≤ 64 → (sig == 0) ≡ false → is_realtime sig ≡ false → (0 < sig) × (sig ≤ 31)
below_realtime sig le z r = ground arith

-- The `siginfo_t` of a signal that becomes pending is that signal's.
new_info :
    (u : Undefined) (info : Siginfo) (p : SignalProcess)
    → 0 < info.signo
    → info.signo ≤ 31
    → IsSound p
    → (i : ℕ) → i < 31
    → join p.sa_pending (sig_mask u info.signo) i ≡ true
    → (if i == info.signo - 1 then info else p.sa_pending_info i).signo ≡ i + 1
new_info u info p pos le s i lt e = elim (Bool-cases (i == info.signo - 1)) [
  | inl same ↦ rw same (omega (arith, eqb→eq _ _ same))
  | inr other ↦ rw other (elim (Bool-cases (p.sa_pending i)) [
    | inl b ↦ s.infos i lt b
    | inr b ↦
        let own : sig_mask u info.signo i ≡ true = cc in
        absurd (eqb_false→ne _ _ other (omega (arith, sig_mask_bit u _ i pos le own)))
  ])
]

queue_up-IsSound :
    (u : Undefined) (info : Siginfo) (p : SignalProcess)
    → info.signo ≤ 64
    → IsSound p
    → IsSound (queue_up u info p)
unfolding queue_up
queue_up-IsSound u info p le s = elim (Bool-cases (info.signo == 0)) [
  | inl z ↦ rw z s
  | inr z ↦ elim (Bool-cases (is_realtime info.signo)) [
    | inl r ↦ elim (Bool-cases (ltb 32 p.sa_rt_queue_count)) [
      | inl full ↦ rw (z, r, full) s
      | inr room ↦ rw (z, r, room) (realtime-IsSound info p room s)
    ]
    | inr r ↦
        let (pos, lt) = below_realtime _ le z r in
        rw (z, r) (pending-IsSound _ _ p (new_info u info p pos lt s) s)
  ]
]

take_signal-IsSound :
    (u : Undefined) (i : ℕ) (info : Siginfo) (p : SignalProcess)
    → info.signo ≤ 64
    → IsSound p
    → IsSound (take_signal u i info p)
unfolding take_signal
take_signal-IsSound u i info p le s =
    change_thread-IsSound i (planned info) _ (λ r h. h) (λ r h. le)
      (if_either IsSound (ltb info.signo 32) (queue_remove-IsSound u _ p s) s)

run_waiter-IsSound : (i : ℕ) (p : SignalProcess) → IsSound p → IsSound (change_thread i wakened p)
run_waiter-IsSound i p s =
    change_thread-IsSound i wakened p
      (λ r h. if_either {A = Receiver} (λ r'. IsSafe r'.sa_mask) (is_waiting r.status) h h)
      (λ r h. if_either IsPlanned (is_waiting r.status) h h) s

-- The other writes touch nothing that soundness reads.
elsewhere :
    (p q : SignalProcess)
    → IsSound p
    → (p.threads ≡ q.threads)
    → (p.sa_handlers ≡ q.sa_handlers)
    → (p.sa_pending ≡ q.sa_pending)
    → (p.sa_pending_info ≡ q.sa_pending_info)
    → (p.sa_rt_queue_count ≡ q.sa_rt_queue_count)
    → (p.sa_rt_queue ≡ q.sa_rt_queue)
    → IsSound q
elsewhere p q s a b c d e f = record {
  masks = subst (λ x. (i : ℕ) → IsSafe (x i).sa_mask) a s.masks;
  handlers = subst (λ x. (k : ℕ) → IsSafe (x k).sa_mask) b s.handlers;
  plans = subst (λ x. (i : ℕ) → IsPlanned (x i)) a s.plans;
  infos =
      subst (λ x. (i : ℕ) → i < 31 → x i ≡ true → (q.sa_pending_info i).signo ≡ i + 1) c
        (subst (λ x. (i : ℕ) → i < 31 → p.sa_pending i ≡ true → (x i).signo ≡ i + 1) d s.infos);
  counted = sym e ∙ s.counted ∙ ap length f;
  bounded = subst (λ x. x ≤ 33) e s.bounded;
}

Change-IsSound :
    (u : Undefined) (f : SignalProcess → SignalProcess)
    → Change u f
    → (p : SignalProcess) → IsSound p
    → IsSound (f p)
Change-IsSound u f (told x) p s = elsewhere p _ s refl refl refl refl refl refl
Change-IsSound u f (told_killed x w) p s = elsewhere p _ s refl refl refl refl refl refl
Change-IsSound u f (forced i) p s =
    change_thread-IsSound i unscheduled _ (λ r h. h) (λ r h. h)
      (elsewhere p (record p { do_cleanup = 1 }) s refl refl refl refl refl refl)
Change-IsSound u f dies p s = elsewhere p _ s refl refl refl refl refl refl
Change-IsSound u f goes_on p s = elsewhere p _ s refl refl refl refl refl refl
Change-IsSound u f stops p s = elsewhere p _ s refl refl refl refl refl refl
Change-IsSound u f (drops sig) p s = queue_remove-IsSound u sig p s
Change-IsSound u f drops_stops p s =
    queue_remove-IsSound u sigtstp _ (queue_remove-IsSound u sigstop p s)
Change-IsSound u f (queues x le) p s = queue_up-IsSound u x p le s
Change-IsSound u f (takes i x le) p s = take_signal-IsSound u i x p le s
Change-IsSound u f (runs i) p s = run_waiter-IsSound i p s

pub change-AllSound :
    (f : SignalProcess → SignalProcess) (a : ℕ) (t : Table)
    → ((p : SignalProcess) → IsSound p → IsSound (f p))
    → AllSound t
    → AllSound (change a f t)
change-AllSound f a t keep s b = if_either IsSound (b == a) (keep _ (s b)) (s b)

pub signal_process-AllSound :
    (u : Undefined) (n a : ℕ) (info : Siginfo) (t : Table)
    → AllSound t
    → Holds AllSound (signal_process u n a info t)
signal_process-AllSound u =
    signal_process-Holds u AllSound (λ f a t c. change-AllSound f a t (Change-IsSound u f c))

pub apply_default_action-AllSound :
    (u : Undefined) (fuel a i : ℕ) (info : Siginfo) (t : Table)
    → AllSound t
    → Holds (Second AllSound) (apply_default_action u (signal_process u fuel) a i info t)
apply_default_action-AllSound u fuel =
    apply_default_action-Holds u AllSound (λ f a t c. change-AllSound f a t (Change-IsSound u f c))
      (signal_process u fuel) (λ a s t le. signal_process-AllSound u fuel a s t)
