-- ===== src/Process/Credentials/Laws.antt =====
-- What the calls of src/users.c may and may not do to the ids of a process.
use unstable_os.Base.{
  Bool-cases, Errno, List, [], ap, arith, drop, eperm, err, false, inl, inr, length, ok,
  take-append, take_all, ℕ, ◌<◌, ◌^◌, ◌↔◌, ◌∷◌, ◌≡◌, ◌≢◌, ◌≤◌, ◌⊎◌,
}
use unstable_os.Process.Credentials.{
  Call, Cred, call, getgroups, given, ngroups_max, no_id, run_calls, setegid, setegid_call, seteuid,
  seteuid_call, setgid, setgid_call, setgroups, setgroups_call, setregid, setregid_call, setresgid,
  setresgid_call, setresuid, setresuid_call, setreuid, setreuid_call, setuid, setuid_call,
  uid_denied,
}

-- The id is one of the three user ids of the process.
abbrev pub Holds : ℕ → Cred → Type 0
Holds u c = (u ≡ c.uid) ⊎ ((u ≡ c.euid) ⊎ (u ≡ c.suid))

-- All three user ids of `d` are among those of `c`.
pub record Within (c d : Cred) : Type 0 where
  pub real : Holds d.uid c
  pub effective : Holds d.euid c
  pub saved : Holds d.suid c

-- No user id is root's.
pub record NoRoot (c : Cred) : Type 0 where
  pub real : c.uid ≢ 0
  pub effective : c.euid ≢ 0
  pub saved : c.suid ≢ 0

Within-refl : (c : Cred) → Within c c
Within-refl c = ground arith

Within-trans : (a b c : Cred) → Within a b → Within b c → Within a c
Within-trans a b c p q = ground arith

NoRoot-Within : (c d : Cred) → NoRoot c → Within c d → NoRoot d
NoRoot-Within c d n w = ground arith

setuid-Within : (u : ℕ) (c : Cred) → c.euid ≢ 0 → Within c (setuid u c).1
unfolding setuid
setuid-Within u c h = ground arith

seteuid-Within : (u : ℕ) (c : Cred) → c.euid ≢ 0 → Within c (seteuid u c).1
unfolding seteuid
seteuid-Within u c h = ground arith

setreuid-Within : (r e : ℕ) (c : Cred) → c.euid ≢ 0 → Within c (setreuid r e c).1
unfolding setreuid
setreuid-Within r e c h = ground arith

setresuid-Within : (r e s : ℕ) (c : Cred) → c.euid ≢ 0 → Within c (setresuid r e s c).1
unfolding setresuid
setresuid-Within r e s c h = ground arith

-- The calls on groups leave the user ids alone.
SameUids : Cred → Cred → Type 0
SameUids c d = (d.uid ≡ c.uid) × (d.euid ≡ c.euid) × (d.suid ≡ c.suid)

setgid-uids : (g : ℕ) (c : Cred) → SameUids c (setgid g c).1
unfolding setgid SameUids
setgid-uids g c = ground arith

setegid-uids : (g : ℕ) (c : Cred) → SameUids c (setegid g c).1
unfolding setegid SameUids
setegid-uids g c = ground arith

setregid-uids : (r e : ℕ) (c : Cred) → SameUids c (setregid r e c).1
unfolding setregid SameUids
setregid-uids r e c = ground arith

setresgid-uids : (r e s : ℕ) (c : Cred) → SameUids c (setresgid r e s c).1
unfolding setresgid SameUids
setresgid-uids r e s c = ground arith

setgroups-uids : (n : ℕ) (l : List ℕ) (c : Cred) → SameUids c (setgroups n l c).1
unfolding setgroups SameUids
setgroups-uids n l c = ground arith

Within-of_same : (c d : Cred) → SameUids c d → Within c d
unfolding SameUids
Within-of_same c d h = ground arith

call-Within : (k : Call) (c : Cred) → c.euid ≢ 0 → Within c (call k c).1
unfolding call
call-Within (setgid_call g) c h = Within-of_same c _ (setgid-uids g c)
call-Within (setegid_call g) c h = Within-of_same c _ (setegid-uids g c)
call-Within (setuid_call u) c h = setuid-Within u c h
call-Within (seteuid_call u) c h = seteuid-Within u c h
call-Within (setregid_call r e) c h = Within-of_same c _ (setregid-uids r e c)
call-Within (setreuid_call r e) c h = setreuid-Within r e c h
call-Within (setresgid_call r e s) c h = Within-of_same c _ (setresgid-uids r e s c)
call-Within (setresuid_call r e s) c h = setresuid-Within r e s c h
call-Within (setgroups_call n l) c h = Within-of_same c _ (setgroups-uids n l c)

-- A process none of whose three user ids is 0 never gets an id that it does not hold already, by any
-- sequence of the calls of users.c, and so none of its user ids ever becomes 0.
pub run_calls-Within :
    (ks : List Call) (c : Cred) → NoRoot c → Within c (run_calls ks c) × NoRoot (run_calls ks c)
unfolding run_calls
run_calls-Within [] c n = (Within-refl c, n)
run_calls-Within (k ∷ ks) c n =
    let w = call-Within k c n.effective in
    let m = NoRoot-Within c _ n w in
    let r = run_calls-Within ks (call k c).1 m in (Within-trans c _ _ w r.0, r.1)

setuid-root :
    (u : ℕ) (c : Cred)
    → c.euid ≡ 0
    → u ≢ no_id
    → ((setuid u c).0 ≡ ok 0)
      × ((setuid u c).1.uid ≡ u)
      × ((setuid u c).1.euid ≡ u)
      × ((setuid u c).1.suid ≡ u)
unfolding setuid
setuid-root u c root ne = ground arith

-- Root that calls `setuid` with another id than 0 and `(uid_t)-1` succeeds and gives root up for
-- good: after any further calls all three user ids are that id.
pub setuid_drops_root :
    (u : ℕ) (ks : List Call) (c : Cred)
    → c.euid ≡ 0
    → u ≢ 0
    → u ≢ no_id
    → ((setuid u c).0 ≡ ok 0)
      × ((run_calls ks (setuid u c).1).uid ≡ u)
      × ((run_calls ks (setuid u c).1).euid ≡ u)
      × ((run_calls ks (setuid u c).1).suid ≡ u)
setuid_drops_root u ks c root nz ne =
    let s = setuid-root u c root ne in
    let n : NoRoot (setuid u c).1 = ground (arith, s) in
    let w = (run_calls-Within ks (setuid u c).1 n).0 in
    (s.0, ground (arith, s, w.real), ground (arith, s, w.effective), ground (arith, s, w.saved))

-- A call that reports an error leaves every id and every group as it was.
pub call-err : (k : Call) (c : Cred) (e : Errno) → (call k c).0 ≡ err e → (call k c).1 ≡ c
unfolding call setgid setegid setuid seteuid setregid setreuid setresgid setresuid setgroups
call-err (setgid_call g) c e h = ground arith
call-err (setegid_call g) c e h = ground arith
call-err (setuid_call u) c e h = ground arith
call-err (seteuid_call u) c e h = ground arith
call-err (setregid_call r g) c e h = ground arith
call-err (setreuid_call r u) c e h = ground arith
call-err (setresgid_call r g s) c e h = ground arith
call-err (setresuid_call r u s) c e h = ground arith
call-err (setgroups_call n l) c e h = ground arith

-- The id is not given, or is held by the process.
abbrev pub Allowed : ℕ → Cred → Type 0
Allowed u c = (u ≡ no_id) ⊎ Holds u c

uid_denied-false : (u : ℕ) (c : Cred) → uid_denied u c ≡ false → (c.euid ≡ 0) ⊎ Allowed u c
uid_denied-false u c h = ground arith

uid_denied_of_Allowed : (u : ℕ) (c : Cred) → Allowed u c → uid_denied u c ≡ false
uid_denied_of_Allowed u c h = ground arith

uid_denied_root : (u : ℕ) (c : Cred) → c.euid ≡ 0 → uid_denied u c ≡ false
uid_denied_root u c h = ground arith

setresuid_checks :
    (r e s : ℕ) (c : Cred)
    → (setresuid r e s c).0 ≡ ok 0
    → (uid_denied r c ≡ false) × (uid_denied e c ≡ false) × (uid_denied s c ≡ false)
unfolding setresuid
setresuid_checks r e s c h = ground arith

setresuid_passes :
    (r e s : ℕ) (c : Cred)
    → uid_denied r c ≡ false
    → uid_denied e c ≡ false
    → uid_denied s c ≡ false
    → setresuid r e s c
      ≡ (ok 0, record c { uid = given r c.uid; euid = given e c.euid; suid = given s c.suid })
unfolding setresuid
setresuid_passes r e s c a b d = rw (a, b, d)

all-Allowed :
    (r e s : ℕ) (c : Cred)
    → (c.euid ≡ 0) ⊎ Allowed r c
    → (c.euid ≡ 0) ⊎ Allowed e c
    → (c.euid ≡ 0) ⊎ Allowed s c
    → (c.euid ≡ 0) ⊎ (Allowed r c × Allowed e c × Allowed s c)
all-Allowed r e s c (inl z) _ _ = inl z
all-Allowed r e s c (inr a) (inl z) _ = inl z
all-Allowed r e s c (inr a) (inr b) (inl z) = inl z
all-Allowed r e s c (inr a) (inr b) (inr d) = inr (a, b, d)

setresuid_granted :
    (r e s : ℕ) (c : Cred)
    → (c.euid ≡ 0) ⊎ (Allowed r c × Allowed e c × Allowed s c)
    → setresuid r e s c
      ≡ (ok 0, record c { uid = given r c.uid; euid = given e c.euid; suid = given s c.suid })
setresuid_granted r e s c (inl z) =
    setresuid_passes r e s c (uid_denied_root r c z) (uid_denied_root e c z) (uid_denied_root s c z)
setresuid_granted r e s c (inr a) =
    setresuid_passes r e s c (uid_denied_of_Allowed r c a.0) (uid_denied_of_Allowed e c a.1)
      (uid_denied_of_Allowed s c a.2)

setresuid_outcome :
    (r e s : ℕ) (c : Cred)
    → (setresuid r e s c
        ≡ (ok 0, record c { uid = given r c.uid; euid = given e c.euid; suid = given s c.suid }))
      ⊎ (setresuid r e s c ≡ (err eperm, c))
unfolding setresuid
setresuid_outcome r e s c = elim (Bool-cases (uid_denied r c)) [
  | inl a ↦ inr (rw a)
  | inr a ↦ elim (Bool-cases (uid_denied e c)) [
    | inl b ↦ inr (rw (a, b))
    | inr b ↦ elim (Bool-cases (uid_denied s c)) [
      | inl d ↦ inr (rw (a, b, d))
      | inr d ↦ inl (rw (a, b, d))
    ]
  ]
]

-- `setresuid` succeeds exactly when the caller is root or each of the three ids is either not given
-- or one that the caller holds. It either returns 0 and changes the ids that are given and nothing
-- else, or returns EPERM and changes nothing.
pub setresuid_iff :
    (r e s : ℕ) (c : Cred)
    → ((setresuid r e s c).0 ≡ ok 0 ↔ ((c.euid ≡ 0) ⊎ (Allowed r c × Allowed e c × Allowed s c)))
      × ((setresuid r e s c ≡ (
        ok 0,
        record c { uid = given r c.uid; euid = given e c.euid; suid = given s c.suid },
      ))
          ⊎ (setresuid r e s c ≡ (err eperm, c)))
setresuid_iff r e s c =
    ((fwd, λ h. ap (λ p. p.0) (setresuid_granted r e s c h)), setresuid_outcome r e s c)
  where
    fwd : (setresuid r e s c).0 ≡ ok 0 → (c.euid ≡ 0) ⊎ (Allowed r c × Allowed e c × Allowed s c)
    fwd h =
        let d = setresuid_checks r e s c h in
        all-Allowed r e s c (uid_denied-false r c d.0) (uid_denied-false e c d.1)
          (uid_denied-false s c d.2)

-- `setreuid` that is given neither id changes the saved id wherever the effective id differs from the
-- real one, though the call asks for no change.
pub setreuid_nothing_given :
    (c : Cred) → c.euid ≢ c.uid → setreuid no_id no_id c ≡ (ok 0, record c { suid = c.euid })
unfolding setreuid
setreuid_nothing_given c h = ground arith

-- `getgroups` with room for all returns the list that root stored by `setgroups`, and its length.
pub getgroups-setgroups :
    (n m : ℕ) (l : List ℕ) (c : Cred)
    → c.euid ≡ 0
    → 0 < n
    → n ≤ ngroups_max
    → length l ≡ n
    → n ≤ m
    → m < 2 ^ 31
    → ((setgroups n l c).0 ≡ ok 0) × (getgroups m (setgroups n l c).1 ≡ (ok n, l))
unfolding setgroups getgroups
getgroups-setgroups n m l c root pos small len room big =
    ground (arith, take-append n l (drop n c.sup_groups), take_all n l)
