-- ===== src/Tests/TextRuns.antt =====
-- Strings at small inputs.
use flitos.Base.{ℕ, refl, arith, some, none, [], ◌∷◌, Returns}
use flitos.Containers.Vector.{Vector}
use flitos.Containers.Text.{append}
use flitos.Containers.Text.Appended.{IsText, Appended, append-Appended}

-- "ab" and "c"
abbrev ab : Vector ℕ
ab = record { size = 3; cap = 4; mem = some 97 ∷ some 98 ∷ some 0 ∷ none ∷ [] }

abbrev just_c : Vector ℕ
just_c = record { size = 2; cap = 2; mem = some 99 ∷ some 0 ∷ [] }

ab-IsText : IsText ab
ab-IsText = record {
  valid = record { within = omega arith; block = refl; small = omega arith };
  ended = omega arith;
  zero_last = refl;
}

just_c-IsText : IsText just_c
just_c-IsText = record {
  valid = record { within = omega arith; block = refl; small = omega arith };
  ended = omega arith;
  zero_last = refl;
}

append-Appended_example : Returns (Appended ab just_c) (append just_c ab)
append-Appended_example = append-Appended ab just_c ab-IsText just_c-IsText (omega arith)
