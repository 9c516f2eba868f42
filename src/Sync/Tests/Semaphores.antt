-- ===== src/Sync/Tests/Semaphores.antt =====
-- The semaphores with two threads and one permit.
use unstable_os.Base.{Bool-cases, [], arith, inl, inr, refl, ℕ, ◌+◌, ◌-◌, ◌==◌, ◌∷◌, ◌≡◌, ◌≢◌, ◌≤◌}
use unstable_os.Sync.Semaphore.{
  Reach, Reach-bounded, System, call, goes, later, load, loaded, outside, posting, queueing,
  sleeping, start, swap, trying, wake_up_lost,
}

abbrev q0 : System
q0 = record { value = 1; queue = []; place = λ i. outside; waits = 0; posts = 0 }

abbrev q1 : System
q1 = goes 1 trying q0

abbrev q2 : System
q2 = goes 1 (loaded 1) q1

abbrev q3 : System
q3 = goes 1 outside (record q2 { value = 0; waits = 1 })

abbrev q4 : System
q4 = goes 0 trying q3

q4-Reach : Reach queueing 2 1 q4
q4-Reach =
    later
      (later (later (later start (omega arith) (call refl)) (omega arith) (load refl)) (omega arith)
        (swap refl (omega arith) refl))
      (omega arith) (call refl)

Reach-bounded_example : (q4.waits ≤ 1 + q4.posts) × (q4.value ≡ 1 + q4.posts - q4.waits)
Reach-bounded_example = Reach-bounded queueing 2 1 q4 (omega arith) q4-Reach

nobody_posts : (l : ℕ) → q4.place l ≢ posting
nobody_posts l = elim (Bool-cases (l == 0)) [
  | inl e ↦ rw e (λ x. cc)
  | inr e ↦ elim (Bool-cases (l == 1)) [ inl f ↦ rw (e, f) (λ x. cc) | inr f ↦ rw (e, f) (λ x. cc) ]
]

wake_up_lost_example :
    (t : System) × Reach queueing 2 1 t
    × (t.value ≡ 1)
    × (t.queue ≡ 0 ∷ [])
    × (t.place 0 ≡ sleeping)
    × ((l : ℕ) → t.place l ≢ posting)
    × ((l : ℕ) → l ≢ 0 → t.place l ≡ q4.place l)
wake_up_lost_example =
    wake_up_lost 2 1 0 1 q4 q4-Reach (omega arith) (omega arith) (omega arith) refl refl refl refl
      nobody_posts
