-- ===== src/Process/Credentials/Tests.antt =====
-- The theorems on src/users.c at concrete processes.
use unstable_os.Base.{List, [], arith, replicate, ◌∷◌}
use unstable_os.Process.Credentials.{
  Call, Cred, run_calls, setresuid_call, setreuid_call, setuid_call,
}
use unstable_os.Process.Credentials.Laws.{NoRoot, Within, run_calls-Within}

-- A process of user 5 that runs a program with the set-user-ID bit of user 6.
abbrev player : Cred
player = record {
  uid = 5;
  euid = 6;
  suid = 6;
  gid = 5;
  egid = 5;
  sgid = 5;
  sup_groups = replicate 16 0;
  ngroup = 0;
}

abbrev superuser : Cred
superuser = record player { uid = 0; euid = 0; suid = 0 }

abbrev attempts : List Call
attempts = setreuid_call 5 5 ∷ setuid_call 0 ∷ setresuid_call 0 0 0 ∷ []

run_calls-Within_example :
    Within player (run_calls attempts player) × NoRoot (run_calls attempts player)
run_calls-Within_example = run_calls-Within attempts player (omega arith)
