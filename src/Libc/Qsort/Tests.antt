-- ===== src/Libc/Qsort/Tests.antt =====
-- qsort on five numbers, by their last digit.
use mathlib.Core.Option
use unstable_os.Base.{[], get_or, refl, some, ℕ, ◌%◌, ◌+◌, ◌<◌, ◌∷◌, ◌≡◌, ◌≤◌}
use unstable_os.Libc.Strings.{Sign}
use unstable_os.Libc.Qsort.{part_loop, qsort_part, qsort_r, qsort_sort, scan_down, scan_up}
use unstable_os.Libc.Qsort.Part.{by_key}
use unstable_os.Libc.Qsort.Sorting.{qsort_r-Ascending}
use unstable_os.Sync.Threads.{tally}

abbrev last_digit : ℕ → ℕ
last_digit x = x % 10

abbrev by_last_digit : ℕ → ℕ → Sign
by_last_digit x y = by_key (last_digit x) (last_digit y)

abbrev five : ℕ → ℕ
five k = get_or (35 ∷ (12 ∷ (98 ∷ (71 ∷ (12 ∷ []))))) k 0

sorts_five :
    Option.map (λ g. g 0 ∷ (g 1 ∷ (g 2 ∷ (g 3 ∷ (g 4 ∷ []))))) (qsort_r by_last_digit five 5)
    ≡ some (71 ∷ (12 ∷ (12 ∷ (35 ∷ (98 ∷ [])))))
unfolding qsort_r qsort_sort qsort_part part_loop scan_up scan_down
sorts_five = refl

qsort_r-Ascending_example :
    (g : ℕ → ℕ) × (qsort_r by_last_digit five 5 ≡ some g)
    × ((k : ℕ) → k + 1 < 5 → last_digit (g k) ≤ last_digit (g (k + 1)))
    × ((w : ℕ → ℕ) → tally w 5 g ≡ tally w 5 five)
    × ((k : ℕ) → 5 ≤ k → g k ≡ five k)
qsort_r-Ascending_example = qsort_r-Ascending by_last_digit last_digit five 5 (λ x y. refl)
