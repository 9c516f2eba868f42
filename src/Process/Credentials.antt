-- ===== src/Process/Credentials.antt =====
-- The user and group ids of a process, src/users.c. A call takes the ids of the calling process and
-- returns its result with the new ids. Every call runs under the lock of the process, so it is one
-- step.
pub mod Laws
mod Tests
use unstable_os.Base.{
  ℕ, ◌-◌, ◌^◌, Bool, ◌&&◌, ◌||◌, List, [], ◌∷◌, ◌++◌, take, drop, ltb, ◌==◌, ◌!=◌, negative,
  if◌then◌else◌, Outcome, ok, err, einval, eperm,
}

-- The fields of `process_t` that users.c reads and writes. `uid_t` and `gid_t` are 32-bit words.
pub record Cred : Type 0 where
  pub uid : ℕ
  pub euid : ℕ
  pub suid : ℕ
  pub gid : ℕ
  pub egid : ℕ
  pub sgid : ℕ
  pub sup_groups : List ℕ
  pub ngroup : ℕ

-- `(uid_t)-1` and `(gid_t)-1`: the argument is not given.
abbrev pub no_id : ℕ
no_id = 2 ^ 32 - 1

abbrev pub ngroups_max : ℕ
ngroups_max = 16

pub setgid : ℕ → Cred → Outcome × Cred
setgid g c =
    if g == no_id
    then (err einval, c)
    else if c.euid == 0
    then (ok 0, record c { gid = g; egid = g; sgid = g })
    else if g == c.gid || g == c.sgid
    then (ok 0, record c { egid = g })
    else (err eperm, c)

pub setegid : ℕ → Cred → Outcome × Cred
setegid g c =
    if g == no_id
    then (err einval, c)
    else if c.euid == 0 || (g == c.gid || g == c.sgid)
    then (ok 0, record c { egid = g })
    else (err eperm, c)

-- `if (new != -1) old = new`
abbrev pub given : ℕ → ℕ → ℕ
given new old = if new != no_id then new else old

pub setregid : ℕ → ℕ → Cred → Outcome × Cred
setregid r e c =
    if r != no_id && (c.euid != 0 && r != c.sgid)
    then (err eperm, c)
    else if e != no_id && (c.euid != 0 && (e != c.sgid && e != c.gid))
    then (err eperm, c)
    else (ok 0, record c { gid = g'; egid = e'; sgid = s' })
  where
    g' : ℕ
    g' = given r c.gid

    e' : ℕ
    e' = given e c.egid

    s' : ℕ
    s' = if e' != g' || r != no_id then e' else c.sgid

-- One check of `setresgid`: the id is given, the caller is not root, and holds it nowhere.
abbrev pub gid_denied : ℕ → Cred → Bool
gid_denied g c = g != no_id && (c.euid != 0 && (g != c.gid && (g != c.egid && g != c.sgid)))

pub setresgid : ℕ → ℕ → ℕ → Cred → Outcome × Cred
setresgid r e s c =
    if gid_denied r c
    then (err eperm, c)
    else if gid_denied e c
    then (err eperm, c)
    else if gid_denied s c
    then (err eperm, c)
    else (ok 0, record c { gid = given r c.gid; egid = given e c.egid; sgid = given s c.sgid })

pub setuid : ℕ → Cred → Outcome × Cred
setuid u c =
    if u == no_id
    then (err einval, c)
    else if c.euid == 0
    then (ok 0, record c { uid = u; euid = u; suid = u })
    else if u == c.uid || u == c.suid
    then (ok 0, record c { euid = u })
    else (err eperm, c)

pub seteuid : ℕ → Cred → Outcome × Cred
seteuid u c =
    if u == no_id
    then (err einval, c)
    else if c.euid == 0 || (u == c.uid || u == c.suid)
    then (ok 0, record c { euid = u })
    else (err eperm, c)

-- One check of `setreuid` and of `setresuid`.
abbrev pub uid_denied : ℕ → Cred → Bool
uid_denied u c = u != no_id && (c.euid != 0 && (u != c.suid && (u != c.euid && u != c.uid)))

pub setreuid : ℕ → ℕ → Cred → Outcome × Cred
setreuid r e c =
    if uid_denied r c
    then (err eperm, c)
    else if uid_denied e c
    then (err eperm, c)
    else (ok 0, record c { uid = u'; euid = e'; suid = s' })
  where
    u' : ℕ
    u' = given r c.uid

    e' : ℕ
    e' = given e c.euid

    s' : ℕ
    s' = if e' != u' || r != no_id then e' else c.suid

pub setresuid : ℕ → ℕ → ℕ → Cred → Outcome × Cred
setresuid r e s c =
    if uid_denied r c
    then (err eperm, c)
    else if uid_denied e c
    then (err eperm, c)
    else if uid_denied s c
    then (err eperm, c)
    else (ok 0, record c { uid = given r c.uid; euid = given e c.euid; suid = given s c.suid })

-- `gidsetsize` is the 32-bit word of an `int`. The list is what is copied out to the caller.
pub getgroups : ℕ → Cred → Outcome × List ℕ
getgroups size c =
    if negative size
    then (err einval, [])
    else if size == 0
    then (ok c.ngroup, [])
    else (ok copied, take copied c.sup_groups)
  where
    copied : ℕ
    copied = if ltb c.ngroup size then c.ngroup else size

-- `memcpy` overwrites the first `size` entries of the array of `ngroups_max`.
pub setgroups : ℕ → List ℕ → Cred → Outcome × Cred
setgroups size l c =
    if negative size || (size == 0 || ltb ngroups_max size)
    then (err einval, c)
    else if c.euid != 0
    then (err eperm, c)
    else (ok 0, record c { sup_groups = take size l ++ drop size c.sup_groups; ngroup = size })

-- The calls that change the ids.
pub data Call : Type 0 where
  setgid_call setegid_call setuid_call seteuid_call : ℕ → Call
  setregid_call setreuid_call : ℕ → ℕ → Call
  setresgid_call setresuid_call : ℕ → ℕ → ℕ → Call
  setgroups_call : ℕ → List ℕ → Call

unfoldable pub call : Call → Cred → Outcome × Cred
call (setgid_call g) = setgid g
call (setegid_call g) = setegid g
call (setuid_call u) = setuid u
call (seteuid_call u) = seteuid u
call (setregid_call r e) = setregid r e
call (setreuid_call r e) = setreuid r e
call (setresgid_call r e s) = setresgid r e s
call (setresuid_call r e s) = setresuid r e s
call (setgroups_call n l) = setgroups n l

-- The ids after a sequence of calls of one process.
pub run_calls : List Call → Cred → Cred
run_calls [] c = c
run_calls (k ∷ ks) c = run_calls ks (call k c).1
