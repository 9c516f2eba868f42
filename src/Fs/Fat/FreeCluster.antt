-- ===== src/Fs/Fat/FreeCluster.antt =====
-- `fat_get_free_cluster` of src/fs/vfat/fat_chains.c.
use unstable_os.Base.{
  Bool-cases, Option-cases, ap, arith, eqb_false→ne, eqb→eq, inl, inr, ltb, ltb_false→le, ltb→lt,
  none, some, suc, zero, ℕ, ◌%◌, ◌+◌, ◌-◌, ◌<◌, ◌==◌, ◌^◌, ◌∙◌, ◌≡◌, ◌≢◌, ◌≤◌,
}
use unstable_os.Fs.Fat.{
  Search, Volume, fat_get_free_cluster, fat_next_in_chain, found, io_error, minus_one, none_free,
  or_scan, panicked, scan, scan_start, search_free, with_last,
}

-- The entry of the cluster is read and is 0, without the reserved bits.
pub record IsFree (cl : ℕ) (v : Volume) : Type 0 where
  pub entry : ℕ
  pub read : fat_next_in_chain cl v ≡ some entry
  pub zero_entry : entry % 2 ^ 28 ≡ 0

-- The entry of the cluster is read and is not 0.
pub record IsTaken (cl : ℕ) (v : Volume) : Type 0 where
  pub entry : ℕ
  pub read : fat_next_in_chain cl v ≡ some entry
  pub nonzero : entry % 2 ^ 28 ≢ 0

-- What each result of a search over the clusters from `lo` below `hi` means.
abbrev pub Means : ℕ → ℕ → Volume → Search → Type 0
Means lo hi v (found cl) = (lo ≤ cl) × (cl < hi) × IsFree cl v
Means lo hi v none_free = (cl : ℕ) → lo ≤ cl → cl < hi → IsTaken cl v
Means lo hi v io_error = (cl : ℕ) × (fat_next_in_chain cl v ≡ some minus_one)
Means lo hi v panicked = (cl : ℕ) × (fat_next_in_chain cl v ≡ none)

later :
    (lo hi : ℕ) (v : Volume) (r : Search) → IsTaken lo v → Means (lo + 1) hi v r → Means lo hi v r
later lo hi v (found cl) t (a, b, c) = (omega arith, b, c)
later lo hi v none_free t all = λ cl l h. elim (Bool-cases (cl == lo)) [
  | inl e ↦ rw (eqb→eq cl lo e) t
  | inr n ↦ all cl (omega (arith, eqb_false→ne cl lo n)) h
]
later lo hi v io_error t m = m
later lo hi v panicked t m = m

scan-Means : (left lo hi : ℕ) (v : Volume) → hi ≡ lo + left → Means lo hi v (scan left lo v)
unfolding scan
scan-Means zero lo hi v h = λ cl l k. absurd (omega arith)
scan-Means (suc left) lo hi v h = elim (Option-cases (fat_next_in_chain lo v)) [
  | inl e ↦ rw (e, scan) (lo, e)
  | inr (next, e) ↦ elim (Bool-cases (next == minus_one)) [
    | inl io ↦ rw (e, scan, io) (lo, e ∙ ap some (eqb→eq next minus_one io))
    | inr no_io ↦ elim (Bool-cases (next % 2 ^ 28 == 0)) [
      | inl free ↦
          rw (e, scan, no_io, free)
            (
              omega arith,
              omega arith,
              record { entry = next; read = e; zero_entry = eqb→eq _ 0 free },
            )
      | inr taken ↦
          rw (e, scan, no_io, taken)
            (later lo hi v (scan left (lo + 1) v)
              (record { entry = next; read = e; nonzero = eqb_false→ne _ 0 taken })
              (scan-Means left (lo + 1) hi v (omega arith)))
    ]
  ]
]

-- Both halves of the range together.
both :
    (lo mid hi : ℕ) (v : Volume) (r s : Search)
    → lo ≤ mid
    → mid ≤ hi
    → Means mid hi v r
    → Means lo mid v s
    → Means lo hi v (or_scan r s)
both lo mid hi v (found cl) s a b (x, y, z) n = (omega arith, y, z)
both lo mid hi v io_error s a b m n = m
both lo mid hi v panicked s a b m n = m
both lo mid hi v none_free (found cl) a b m (x, y, z) = (x, omega arith, z)
both lo mid hi v none_free io_error a b m n = n
both lo mid hi v none_free panicked a b m n = n
both lo mid hi v none_free none_free a b m n = λ cl l h. elim (Bool-cases (ltb cl mid)) [
  | inl below ↦ n cl l (ltb→lt cl mid below)
  | inr above ↦ m cl (ltb_false→le cl mid above) h
]

-- The search looks at the clusters from 2 below `data_clusters`. A cluster that it returns lies there
-- and is free; 0 means that every one of them is taken; -1 that an entry reads as an error; and it
-- panics only where reading an entry does.
pub search_free-Means :
    (v : Volume) → 2 ≤ v.info.data_clusters → Means 2 v.info.data_clusters v (search_free v)
unfolding search_free
search_free-Means v h =
    let n = v.info.data_clusters in
    let start = scan_start v.info in
    let lo : 2 ≤ start = ground arith in
    let hi : start ≤ n = ground arith in
    both 2 start n v (scan (n - start) start v) (scan (start - 2) 2 v) lo hi
      (scan-Means (n - start) start n v (omega arith))
      (scan-Means (start - 2) 2 start v (omega arith))

-- The volume after the search: the entries are as before, and a cluster that is found is where the next
-- search begins.
pub fat_get_free_cluster_found :
    (v : Volume) (cl : ℕ)
    → 2 ≤ v.info.data_clusters
    → (fat_get_free_cluster v).0 ≡ found cl
    → ((fat_get_free_cluster v).1 ≡ with_last cl v)
      × (2 ≤ cl)
      × (cl < v.info.data_clusters)
      × IsFree cl v
unfolding fat_get_free_cluster
fat_get_free_cluster_found v cl h e =
    let r : search_free v ≡ found cl = e in
    let m : Means 2 v.info.data_clusters v (found cl) = rw r at (search_free-Means v h) in
    (rw (r, fat_get_free_cluster), m.0, m.1, m.2)
