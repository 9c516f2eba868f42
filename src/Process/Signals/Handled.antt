-- ===== src/Process/Signals/Handled.antt =====
-- What a signal handler of the users finds and leaves, src/kernel_signals.c.
use unstable_os.Base.{
  Bool, Bool-cases, Option, ap, arith, eqb_refl, eqb→eq, false, if◌then◌else◌, inl, inr,
  ne→eqb_false, not, refl, some, sym, true, ℕ, ◌%◌, ◌&&◌, ◌+◌, ◌-◌, ◌==◌, ◌||◌, ◌∙◌, ◌≡◌, ◌≢◌,
}
use unstable_os.Process.Signals.{
  Receiver, Sigaction, Siginfo, Sigset, Table, Undefined, change, change_thread, safe_mask, sig_ign,
}
use unstable_os.Process.Signals.Dispatch.{apply_default_action, signal_process, stop}
use unstable_os.Process.Signals.Sound.{IsSafe}
use unstable_os.Process.Signals.Handler.{
  Context, Memory, StackState, dispatch_handler, dispatch_sa, enter_handler, is_status_flag,
  on_stack, receiver, restore_context, sigreturn, stack_state, state_at, with_mask,
}

-- The handler of the thread's signal.
abbrev pub handler : ℕ → ℕ → Table → Sigaction
handler a i t = (t.processes a).sa_handlers ((receiver a i t).sa_info.signo - 1)

-- The thread may be sent to a handler: it has a signal, and a handler for it that is neither `SIG_DFL` nor `SIG_IGN`; it runs in user mode on a stack that can be written.
pub record IsReady (m : Memory) (a i : ℕ) (t : Table) (c : Context) : Type 0 where
  pub has_signal : (receiver a i t).sa_info.signo ≢ 0
  pub caught : ((handler a i t).sa_handler ≢ 0) × ((handler a i t).sa_handler ≢ sig_ign)
  pub user_mode : (c.gregs.cs % 4 == 0) ≡ false
  pub has_stack : on_stack c.gregs.sp ≡ true
  pub has_room : m.is_writable (c.gregs.sp - 16 - m.state_size) (16 + m.state_size) ≡ true

module _ (u : Undefined) (m : Memory) (a i : ℕ) (t : Table) (c : Context)
    (r : IsReady m a i t c) where
  no_default :
      (notify : ℕ → Siginfo → Table → Option Table)
      → apply_default_action u notify a i (receiver a i t).sa_info t ≡ some (false, t)
  unfolding apply_default_action
  no_default notify =
      rw
        (
          ne→eqb_false _ 0 r.has_signal,
          ne→eqb_false _ sig_ign r.caught.1,
          ne→eqb_false _ 0 r.caught.0,
        )
        refl

  pub dispatch_sa-enter_handler :
      (fuel : ℕ) → dispatch_sa u fuel m a i t c ≡ some (enter_handler u m a i t c)
  unfolding dispatch_handler dispatch_sa
  dispatch_sa-enter_handler fuel =
      rw
        (
          dispatch_sa,
          ne→eqb_false _ 0 r.has_signal,
          no_default (signal_process u fuel),
          r.user_mode,
          r.has_stack,
          r.has_room,
        )
        refl

and_not : (b c : Bool) → (c ≡ true → b ≡ false) → (b && not c) ≡ b
and_not true true h = sym (h refl)
and_not true false h = refl
and_not false c h = refl

at_number :
    (mask : Sigset) (n k : ℕ) (rest : Bool)
    → mask n ≡ false
    → (rest ≡ true → mask k ≡ false)
    → (k == n || rest) ≡ true
    → mask k ≡ false
at_number mask n k rest none_there h e = elim (Bool-cases (k == n)) [
  | inl same ↦ rw (eqb→eq k n same) none_there
  | inr other ↦ h cc
]

-- A safe mask is not changed when it is made safe.
safe_mask-safe : (mask : Sigset) → IsSafe mask → (k : ℕ) → safe_mask mask k ≡ mask k
unfolding safe_mask
safe_mask-safe mask (kill, cont, stop) k =
    and_not _ _
      (at_number mask 8 k _ kill (at_number mask 17 k _ cont (λ e. rw (eqb→eq k 18 e) stop)))

-- `c` is the context that the handler has interrupted, and `c'` the one that it left for `sigreturn`.
abbrev pub IsRestored : Context → Context → Context → Type 0
IsRestored c c' c'' =
    (c''.last_context ≡ c.last_context)
    × (c''.gregs.general ≡ c.gregs.general)
    × (c''.gregs.ip ≡ c.gregs.ip)
    × (c''.gregs.sp ≡ c.gregs.sp)
    × ((k : ℕ)
        → c''.gregs.eflags k ≡ (if is_status_flag k then c.gregs.eflags k else c'.gregs.eflags k))

stored :
    (u : Undefined) (m : Memory) (a i : ℕ) (t : Table) (c : Context)
    → (enter_handler u m a i t c).1.stack (state_at m c.gregs.sp)
      ≡ stack_state u (handler a i t) (receiver a i t) c
unfolding enter_handler
stored u m a i t c = rw (eqb_refl (state_at m c.gregs.sp)) refl

sigreturn_from :
    (m : Memory) (a i : ℕ) (t : Table) (c : Context) (s : StackState)
    → c.stack (c.gregs.sp - 4) ≡ s
    → on_stack c.gregs.sp ≡ true
    → m.is_writable c.gregs.sp m.state_size ≡ true
    → sigreturn m a i t c ≡ (
      change a (change_thread i (with_mask (safe_mask s.previous_sa_mask))) t,
      record c { gregs = restore_context c.gregs s.uc_gregs; last_context = s.uc_link },
    )
unfolding sigreturn
sigreturn_from m a i t c s e has_stack has_room = rw (has_stack, has_room, e) refl

if_itself : {A : Type 0} (n : ℕ) (x y : A) → (if n == n then x else y) ≡ x
if_itself n x y = rw (eqb_refl n) refl

changed_receiver :
    (a i : ℕ) (f : Receiver → Receiver) (t : Table)
    → receiver a i (change a (change_thread i f) t) ≡ f (receiver a i t)
changed_receiver a i f t =
    let p = t.processes a in
    ap (λ q. q.threads i) (if_itself a (change_thread i f p) p)
    ∙ if_itself i (f (p.threads i)) (p.threads i)

-- A thread that is sent to a handler of the users and comes back, its stack pointer above the state and the
-- state as it was made, gets back its mask, if that was safe, its last context, its general registers, its
-- place in the program, its stack pointer and the flags of carry, parity, adjust, zero and sign. Meanwhile
-- the processes and the other registers may have changed.
pub dispatch_sa-sigreturn :
    (u : Undefined) (m : Memory) (fuel a i : ℕ) (t t1 t2 : Table) (c c1 c2 : Context)
    → IsReady m a i t c
    → IsSafe (receiver a i t).sa_mask
    → dispatch_sa u fuel m a i t c ≡ some (t1, c1)
    → c2.gregs.sp ≡ state_at m c.gregs.sp + 4
    → c2.stack (state_at m c.gregs.sp) ≡ c1.stack (state_at m c.gregs.sp)
    → on_stack c2.gregs.sp ≡ true
    → m.is_writable c2.gregs.sp m.state_size ≡ true
    → ((k : ℕ) → (receiver a i (sigreturn m a i t2 c2).0).sa_mask k ≡ (receiver a i t).sa_mask k)
      × IsRestored c c2 (sigreturn m a i t2 c2).1
unfolding restore_context stack_state
dispatch_sa-sigreturn u m fuel a i t t1 t2 c c1 c2 r safe e above kept has_stack has_room =
    let entered : enter_handler u m a i t c ≡ (t1, c1) =
      some_eq (sym (dispatch_sa-enter_handler u m a i t c r fuel) ∙ e) in
    let below : c2.gregs.sp - 4 ≡ state_at m c.gregs.sp = omega (arith, above) in
    let made : c2.stack (c2.gregs.sp - 4) ≡ stack_state u (handler a i t) (receiver a i t) c =
      ap c2.stack below
      ∙ kept
      ∙ ap (λ p. p.1.stack (state_at m c.gregs.sp)) (sym entered)
      ∙ stored u m a i t c in
    let old = (receiver a i t).sa_mask in
    rw (sigreturn_from m a i t2 c2 _ made has_stack has_room) (
      λ k.
          ap (λ x. x.sa_mask k) (changed_receiver a i (with_mask (safe_mask old)) t2)
          ∙ safe_mask-safe old safe k,
      (refl, refl, refl, refl, λ k. refl),
    )
  where
    some_eq : {x y : Table × Context} → some x ≡ some y → x ≡ y
    some_eq h = cc
