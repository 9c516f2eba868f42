-- ===== src/Libc/Qsort.antt =====
-- qsort of libc/src/qsort.c. The array is the function from a place to the element of `width` bytes that
-- stands there, and a pointer into it is a place. `compar` stands for the caller's function together with
-- `arg`.
pub mod Part
pub mod Rounds
pub mod Halves
pub mod Sorting
mod Tests
use unstable_os.Base.{
  Option, false, if◌then◌else◌, leb, none, some, suc, true, zero, ℕ, ◌+◌, ◌-◌, ◌==◌, ◌||◌,
}
use unstable_os.Libc.Strings.{Sign, less, more, same}
use unstable_os.Sync.Threads.{set_at}

module _ {A : Type 0} (compar : A → A → Sign) where
  -- The inner loops of `qsort_part`, behind their first step.
  unfoldable pub scan_up : ℕ → (ℕ → A) → ℕ → ℕ → Option ℕ
  scan_up zero f a i = none
  scan_up (suc fuel) f a i = elim (compar (f i) (f a)) [
    | less ↦ scan_up fuel f a (i + 1)
    | same ↦ some i
    | more ↦ some i
  ]

  unfoldable pub scan_down : ℕ → (ℕ → A) → ℕ → ℕ → Option ℕ
  scan_down zero f a j = none
  scan_down (suc fuel) f a j = elim (compar (f j) (f a)) [
    | less ↦ some j
    | same ↦ some j
    | more ↦ scan_down fuel f a (j - 1)
  ]

abbrev pub qsort_swap : {A : Type 0} → (ℕ → A) → ℕ → ℕ → ℕ → A
qsort_swap f i j = set_at i (f j) (set_at j (f i) f)

abbrev pub Parted : Type 0 → Type 0
Parted A = Option (ℕ × (ℕ → A))

abbrev pub after_scans :
    {A : Type 0} → (ℕ → ℕ → Parted A) → (ℕ → A) → Option ℕ → Option ℕ → Parted A
after_scans next f none o = none
after_scans next f (some i) none = none
after_scans next f (some i) (some j) = let rest = next i j in if leb j i then some (j, f) else rest

module _ {A : Type 0} (compar : A → A → Sign) where
  -- The outer loop, with the places where the inner ones go on. They take at most one step for each
  -- element.
  unfoldable pub part_loop : ℕ → (ℕ → A) → ℕ → ℕ → ℕ → ℕ → Parted A
  unfolding scan_up scan_down
  part_loop zero f a b i j = none
  part_loop (suc fuel) f a b i j =
      after_scans (λ i' j'. part_loop fuel (qsort_swap f i' j') a b (i' + 1) (j' - 1)) f
        (scan_up compar (suc (b - a)) f a i) (scan_down compar (suc (b - a)) f a j)

  unfoldable pub qsort_part : (ℕ → A) → ℕ → ℕ → Parted A
  unfolding part_loop
  qsort_part f a b = part_loop (suc (suc (b - a))) f a b a b

  unfoldable pub qsort_sort : ℕ → (ℕ → A) → ℕ → ℕ → Option (ℕ → A)
  unfolding qsort_part
  qsort_sort zero f a b = none
  qsort_sort (suc fuel) f a b = elim (leb b a) [
    | true ↦ some f
    | false ↦ elim (qsort_part f a b) [
      | none ↦ none
      | some r ↦ elim (qsort_sort fuel r.1 a r.0) [
        | none ↦ none
        | some g ↦ qsort_sort fuel g (r.0 + 1) b
      ]
    ]
  ]

  -- `qsort_r`, and with an `arg` that is not used `qsort`.
  unfoldable pub qsort_r : (ℕ → A) → ℕ → Option (ℕ → A)
  unfolding qsort_sort
  qsort_r f nel = if nel == 0 || nel == 1 then some f else qsort_sort nel f 0 (nel - 1)
