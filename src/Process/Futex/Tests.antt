-- ===== src/Process/Futex/Tests.antt =====
-- The theorems on futexes at a process of three threads.
use unstable_os.Base.{Bool, List, [], false, none, true, ℕ, ◌∷◌}
use unstable_os.Process.Thread.{interr_sleep}
use unstable_os.Process.Futex.{WaitArgs, Waiter}

abbrev thread : ℕ → ℕ → Bool → Waiter
thread t addr w = record {
  tid = t;
  status = interr_sleep;
  futex_addr = addr;
  futex_owner = 9;
  is_waiting_on_futex = w;
  owner_dead = false;
}

abbrev three : List Waiter
three = thread 1 4096 true ∷ thread 2 8192 true ∷ thread 9 0 false ∷ []

abbrev args : WaitArgs
args = record {
  addr = 4096;
  value = 1;
  expected = 1;
  owner = 9;
  timeout = none;
  readable = false;
  clock = 0;
}

abbrev joined : List Waiter
joined =
    thread 1 4096 true
    ∷ thread 2 8192 true
    ∷ record (thread 9 4096 true) { status = interr_sleep }
    ∷ []
