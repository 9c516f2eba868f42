-- ===== src/Process/Futex/Wait.antt =====
-- When a thread waits, and what its wait returns, src/futex.c.
use unstable_os.Base.{
  List, arith, eagain, eownerdead, err, false, none, ok, refl, true, ℕ, ◌≡◌, ◌≢◌,
}
use unstable_os.Process.Futex.{
  WaitArgs, Waiter, interrupted, is_alone, owner_dead_of, returned, wait_begin, wait_end,
  wait_end_timed, wait_locked,
}

-- A wait on a word that has changed already returns EAGAIN at once, if the arguments are in order.
pub wait_begin_again :
    (me : ℕ) (a : WaitArgs) (ts : List Waiter)
    → a.owner ≡ 0
    → a.timeout ≡ none
    → is_alone ts ≡ false
    → a.value ≢ a.expected
    → wait_begin me a ts ≡ returned (err eagain)
unfolding wait_begin wait_locked
wait_begin_again me a ts o t alone ne = ground arith

-- The death of the owner ends a timed wait with EOWNERDEAD, but a wait without a timeout with success.
pub wait_end_owner_dead :
    (me owner : ℕ) (ts : List Waiter)
    → owner ≢ 0
    → owner_dead_of me ts ≡ true
    → ((wait_end_timed me owner interrupted false ts).0 ≡ err eownerdead)
      × ((wait_end me false ts).0 ≡ ok 0)
unfolding wait_end wait_end_timed
wait_end_owner_dead me owner ts ne dead = (ground arith, refl)
