-- ===== src/Process/Signals/KeptByHandlers.antt =====
-- That the way into a handler and back, `signal_dispatch_sa` and `sys_sigreturn` of src/kernel_signals.c,
-- leaves the signals of all processes sound.
use unstable_os.Base.{Bool, Option, arith, false, flag, none, refl, some, true, ℕ, ◌-◌, ◌==◌}
use unstable_os.Process.Signals.{
  Receiver, Sigaction, SignalProcess, Table, Undefined, change, change_thread, safe_mask,
}
use unstable_os.Process.Thread.{dont_schedule}
use unstable_os.Process.Signals.Handler.{
  Context, Memory, dispatch_handler, dispatch_sa, enter_handler, handled_now, handler_mask, masked,
  receiver, reset_hand, segmentation_fault, sigreturn, with_mask,
}
use unstable_os.Process.Signals.Changes.{Holds, Second, if_Holds, if_either, no_result, result}
use unstable_os.Process.Signals.Sound.{
  AllSound, IsPlanned, IsSafe, IsSound, apply_default_action-AllSound, change-AllSound,
  change_thread-IsSound, safe_mask-IsSafe,
}

abbrev pub First : Table × Context → Type 0
First (t, c) = AllSound t

handled_now-IsSound :
    (i : ℕ) (p : SignalProcess) → IsSound p → IsSound (change_thread i handled_now p)
handled_now-IsSound i p s = change_thread-IsSound i handled_now p (λ r h. h) (λ r h. omega arith) s

-- The end of a thread keeps what the change of the thread keeps.
segmentation_fault-IsSound :
    (i : ℕ) (f : Receiver → Receiver) (p : SignalProcess)
    → ((r : Receiver) → IsSafe r.sa_mask → IsSafe (f r).sa_mask)
    → ((r : Receiver) → IsPlanned r → IsPlanned (f r))
    → IsSound p
    → IsSound (segmentation_fault i f p)
segmentation_fault-IsSound i f p safe planned s =
    let kept =
      change_thread-IsSound i (λ r. record (f r) { status = dont_schedule }) p safe planned s in
    record {
      masks = kept.masks;
      handlers = kept.handlers;
      plans = kept.plans;
      infos = kept.infos;
      counted = kept.counted;
      bounded = kept.bounded;
    }

reset_hand-IsSound :
    (sig : ℕ) (h : Sigaction) (p : SignalProcess) → IsSound p → IsSound (reset_hand sig h p)
reset_hand-IsSound sig h p s =
    if_either IsSound (flag 2 h.sa_flags)
      (record {
        masks = s.masks;
        handlers = λ k.
            if_either {A = Sigaction} (λ x. IsSafe x.sa_mask) (k == sig - 1) (refl, refl, refl)
              (s.handlers k);
        plans = s.plans;
        infos = s.infos;
        counted = s.counted;
        bounded = s.bounded;
      })
      s

enter_handler-AllSound :
    (u : Undefined) (m : Memory) (a i : ℕ) (t : Table) (c : Context)
    → AllSound t
    → First (enter_handler u m a i t c)
unfolding enter_handler handler_mask
enter_handler-AllSound u m a i t c s =
    let r = receiver a i t in
    let sig = r.sa_info.signo in
    let h = (t.processes a).sa_handlers (sig - 1) in
    let mask = handler_mask u h r in
    let safe : IsSafe mask = safe_mask-IsSafe _ in
    change-AllSound (λ p. change_thread i (masked mask) (reset_hand sig h p)) a t
      (λ p k.
        change_thread-IsSound i (masked mask) (reset_hand sig h p) (λ r' k'. safe)
          (λ r' k'. omega arith) (reset_hand-IsSound sig h p k))
      s

dispatch_handler-AllSound :
    (u : Undefined) (m : Memory) (a i : ℕ) (t : Table) (c : Context)
    → AllSound t
    → First (dispatch_handler u m a i t c)
unfolding dispatch_handler
dispatch_handler-AllSound u m a i t c s = if_either First _ s (
    if_either First _
      (change-AllSound _ a t
        (λ p. segmentation_fault-IsSound i handled_now p (λ r h. h) (λ r h. omega arith)) s)
      (enter_handler-AllSound u m a i t c s))

pub dispatch_sa-Holds :
    (u : Undefined) (fuel : ℕ) (m : Memory) (a i : ℕ) (t : Table) (c : Context)
    → AllSound t
    → Holds First (dispatch_sa u fuel m a i t c)
unfolding dispatch_sa
dispatch_sa-Holds u fuel m a i t c s =
    if_Holds _ (result s)
      (entered (apply_default_action-AllSound u fuel a i (receiver a i t).sa_info t s))
  where
    entered :
        {o : Option (Bool × Table)}
        → Holds (Second AllSound) o
        → Holds First (elim o [
          | none ↦ none
          | some (true, t') ↦ some (change a (change_thread i handled_now) t', c)
          | some (false, t') ↦ some (dispatch_handler u m a i t' c)
        ])
    entered no_result = no_result
    entered (result {t = (true, t')} h) = result (change-AllSound _ a t' (handled_now-IsSound i) h)
    entered (result {t = (false, t')} h) = result (dispatch_handler-AllSound u m a i t' c h)

pub sigreturn-AllSound :
    (m : Memory) (a i : ℕ) (t : Table) (c : Context) → AllSound t → First (sigreturn m a i t c)
unfolding sigreturn
sigreturn-AllSound m a i t c s =
    let mask = safe_mask (c.stack (c.gregs.sp - 4)).previous_sa_mask in
    if_either First _
      (change-AllSound (segmentation_fault i (λ r. r)) a t
        (λ p. segmentation_fault-IsSound i (λ r. r) p (λ r h. h) (λ r h. h)) s)
      (change-AllSound (change_thread i (with_mask mask)) a t
        (λ p. change_thread-IsSound i (with_mask mask) p (λ r h. safe_mask-IsSafe _) (λ r h. h)) s)
