-- ===== src/Tests/ListRuns.antt =====
-- The linked list and the ordered map at small inputs.
use flitos.Base.{ℕ, ◌≡◌, refl, arith, false, List, [], ◌∷◌, map, none, contains, ok, fault, Returns}
use flitos.Containers.LinkedList
use flitos.Containers.LinkedList.{
  Heap, put, begin_of, push_back, push_front, pop_back, set_prev, set_next, delete, erase, front,
}
use flitos.Containers.LinkedList.Linked.{Holds, node}
use flitos.Containers.LinkedList.Runs.{
  Op, to_back, to_front, from_back, meaning, run, Values, Served, run-refines,
}
use flitos.Containers.LinkedList.Erase.{erase-front}
use flitos.Containers.OrderedMap.{subscript, at}
use flitos.Containers.OrderedMap.Subscript.{placed, Placed, subscript-Placed}
use flitos.Containers.OrderedMap.Search.{value_of, Ascending, at-value_of}

abbrev no_nodes : Heap ℕ
no_nodes a = none

abbrev some_calls : List (Op ℕ)
some_calls = to_back 16 1 ∷ to_front 32 2 ∷ from_back ∷ []

calls-Served : Served some_calls no_nodes (record { size = 0; begin = 0; rbegin = 0 })
unfolding Served push_back push_front pop_back set_prev set_next delete
calls-Served = ((refl, omega arith), ((refl, omega arith), (tt, tt)))

run-refines_example :
    Returns
      (Values (meaning some_calls []))
      (run some_calls no_nodes (record { size = 0; begin = 0; rbegin = 0 }))
run-refines_example = run-refines some_calls no_nodes calls-Served (omega arith)

-- Three pairs in the heap, with the keys 1, 3 and 7
abbrev three_nodes : Heap (ℕ × ℕ)
three_nodes =
    put 16 (node (1, 10) 0 32)
      (put 32 (node (3, 30) 16 48) (put 48 (node (7, 70) 32 0) (λ a. none)))

abbrev three_cells : List (ℕ × (ℕ × ℕ))
three_cells = (16, (1, 10)) ∷ (32, (3, 30)) ∷ (48, (7, 70)) ∷ []

abbrev three : LinkedList.LinkedList
three = record { size = 3; begin = 16; rbegin = 48 }

three-Holds : Holds three_nodes three three_cells
three-Holds = record {
  sized = refl;
  begins = refl;
  ends = refl;
  linked = (omega arith, refl, (omega arith, refl, (omega arith, refl, tt)));
  distinct = ((omega arith, (omega arith, tt)), ((omega arith, tt), (tt, tt)));
}

erase-front_example :
    (h : Heap (ℕ × ℕ)) × (erase (begin_of three) three_nodes three
      ≡ ok (h, three, record { p = 32; reach_end = false }))
    × (front h three ≡ fault)
erase-front_example =
    erase-front 16 32 (1, 10) (3, 30) three_nodes three ((48, (7, 70)) ∷ []) three-Holds

at-value_of_example : at 3 three_nodes three ≡ value_of 3 (map (λ c. c.1) three_cells)
at-value_of_example = at-value_of 3 three_nodes three three_cells three-Holds

three-Ascending : Ascending (map (λ c. c.1) three_cells)
unfolding Ascending
three-Ascending = (omega arith, (omega arith, tt))

four-absent : contains 4 (map (λ c. c.1) three_cells) ≡ false
unfolding contains
four-absent = refl

-- The key 4 comes between 3 and 7.
subscript-Placed_example :
    Returns
      (Placed 64 (placed 4 0 (map (λ c. c.1) three_cells)))
      (subscript 64 0 4 three_nodes three)
subscript-Placed_example =
    subscript-Placed 64 4 0 three_nodes three three_cells three-Holds four-absent refl (omega arith)
      (omega arith)
