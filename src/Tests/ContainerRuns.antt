-- ===== src/Tests/ContainerRuns.antt =====
-- The theorems on the vector and the deque at small inputs.
use flitos.Base.{Table, contains, insert, ℕ, ◌≡◌, refl, some, arith, List, [], ◌∷◌, ok}
use flitos.Containers.Vector.{Vector}
use flitos.Containers.Vector.Laws
use flitos.Containers.UnorderedMap.{erase, subscript_assign}
use flitos.Containers.UnorderedMap.Laws.{Erased, erase-Erased, subscript_assign-insert}
use flitos.Containers.Deque.{Deque, empty_deque}
use flitos.Containers.Deque.Valid
use flitos.Containers.Deque.Valid.{contents, cell}
use flitos.Containers.Deque.Fifo.{Op, push, pop, run, run_list, run-empty_refines}

abbrev three : Table ℕ
three = (1, 10) ∷ (2, 20) ∷ (3, 30) ∷ []

abbrev full : Vector ℕ
full = record { size = 4; cap = 4; mem = some 10 ∷ some 11 ∷ some 12 ∷ some 13 ∷ [] }

full-IsValid : Laws.IsValid full
full-IsValid = record { within = omega arith; block = refl; small = omega arith }

-- Three elements, the first at the last slot.
abbrev wound : Deque ℕ
wound = record { idx_begin = 3; idx_end = 2; storage = full }

wound-IsValid : Valid.IsValid wound
wound-IsValid = record { vector = full-IsValid; begin_in = omega arith; end_in = omega arith }

abbrev calls : List (Op ℕ)
calls = pop ∷ push 1 ∷ push 2 ∷ pop ∷ push 3 ∷ push 4 ∷ pop ∷ pop ∷ []

run-empty_refines_example : run calls empty_deque ≡ ok (run_list calls [])
run-empty_refines_example = run-empty_refines calls (omega arith)

erase-Erased_example : Erased 0 1 three (erase 0 1 three) 3
unfolding contains
erase-Erased_example = erase-Erased 0 1 three (refl, (refl, (refl, tt))) 3

subscript_assign-insert_example : subscript_assign 0 2 7 three ≡ insert 2 7 three
subscript_assign-insert_example = subscript_assign-insert 0 2 7 three
