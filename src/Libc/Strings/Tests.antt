-- ===== src/Libc/Strings/Tests.antt =====
-- The string functions on short strings.
use unstable_os.Base.{List, [], arith, refl, some, ℕ, ◌↔◌, ◌∷◌, ◌≡◌}
use unstable_os.Libc.Strings.{Sign, last_loop, same, strcmp, strlen, strrchr}
use unstable_os.Libc.Strings.Compare.{Spells, ends, next, strcmp-same_iff}

abbrev text_aba : List ℕ
text_aba = 97 ∷ (98 ∷ (97 ∷ []))

abbrev text_abc : List ℕ
text_abc = 97 ∷ (98 ∷ (99 ∷ []))

-- With their terminators
abbrev aba : List ℕ
aba = 97 ∷ (98 ∷ (97 ∷ (0 ∷ [])))

abbrev abc : List ℕ
abc = 97 ∷ (98 ∷ (99 ∷ (0 ∷ [])))

aba-Spells : Spells aba text_aba
aba-Spells = next (omega arith) (next (omega arith) (next (omega arith) ends))

abc-Spells : Spells abc text_abc
abc-Spells = next (omega arith) (next (omega arith) (next (omega arith) ends))

strcmp-same_iff_example :
    (r : Sign) × (strcmp aba abc ≡ some r) × ((r ≡ same) ↔ (text_aba ≡ text_abc))
strcmp-same_iff_example = strcmp-same_iff aba abc text_aba text_abc aba-Spells abc-Spells

finds_last : strrchr aba 97 ≡ some (some 2)
unfolding strrchr strlen last_loop
finds_last = refl
