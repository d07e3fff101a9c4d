-- ===== src/Containers/OrderedMap.antt =====
-- os_kernel/src/ecs_map.h: the ordered map over the linked list, with `find_if` of ecs_algorithm.h.
-- Keys are numbers that are not negative. A reference to a value is the address of its node. `find_if`
-- has one round more than the list's size, which is enough where the size counts the nodes.
pub mod Search
pub mod Subscript
use flitos.Base.{
  ℕ, zero, suc, ◌+◌, Bool, true, false, ltb, leb, ◌==◌, not, if◌then◌else◌, Outcome, ok, hang,
  ◌>>=◌,
}
use flitos.Containers.LinkedList
use flitos.Containers.LinkedList.{
  Heap, LinkedList, Iterator, deref, same, begin_of, end_of, increment, decrement,
}

-- `find_if`
unfoldable pub find_if {ℓ} :
    {A : Type ℓ} → ℕ → (A → Bool) → Iterator → Iterator → Heap A → Outcome Iterator
find_if zero test i last h = hang
find_if (suc f) test i last h =
    let next = increment h i >>= λ j. find_if f test j last h in
    let here = deref (h i.p) >>= λ n. if test n.val then ok i else next in
    if same i last then ok last else here

abbrev pub key_is {ℓ} : {V : Type ℓ} → ℕ → ℕ × V → Bool
key_is k c = c.0 == k

abbrev pub key_from {ℓ} : {V : Type ℓ} → ℕ → ℕ × V → Bool
key_from k c = leb k c.0

-- The iterator of the first pair that passes the test
abbrev pub search {ℓ} : {A : Type ℓ} → (A → Bool) → Heap A → LinkedList → Outcome Iterator
search test h l = find_if (l.size + 1) test (begin_of l) (end_of l) h

unfoldable pub at {ℓ} : {V : Type ℓ} → ℕ → Heap (ℕ × V) → LinkedList → Outcome V
at k h l = search (key_is k) h l >>= λ i.
    if same i (end_of l) then hang else (deref (h i.p) >>= λ n. ok n.val.1)

unfoldable pub find_key {ℓ} : {V : Type ℓ} → ℕ → Heap (ℕ × V) → LinkedList → Outcome Iterator
find_key k h l = search (key_is k) h l

unfoldable pub erase {ℓ} :
    {V : Type ℓ} → ℕ → Heap (ℕ × V) → LinkedList → Outcome (Heap (ℕ × V) × LinkedList)
erase k h l = search (key_is k) h l >>= λ i.
    if same i (end_of l) then ok (h, l) else (LinkedList.erase i h l >>= λ r. ok (r.0, r.1))

-- `insert` of a pair: the list, the iterator and whether the key is new. Assigning an iterator copies its
-- pointer only.
abbrev assigned : Iterator → Iterator
assigned i = record { p = i.p; reach_end = true }

unfoldable pub insert {ℓ} :
    {V : Type ℓ}
    → ℕ
    → ℕ × V
    → Heap (ℕ × V)
    → LinkedList
    → Outcome (Heap (ℕ × V) × LinkedList × Iterator × Bool)
insert a pair h l = do
  i ← search (key_from pair.0) h l
  let at_end = LinkedList.push_back a pair h l >>= λ r.
      decrement r.0 (assigned (end_of r.1)) >>= λ j. ok (r.0, r.1, j, true)
  let before = LinkedList.insert a i pair h l >>= λ r. ok (r.0, r.1, assigned r.2, true)
  let found =
      deref (h i.p) >>= λ n. if n.val.0 == pair.0 then ok (h, l, assigned i, false) else before
  if same i (end_of l) then at_end else found

-- `operator[]`, with `d` the default value
unfoldable pub subscript {ℓ} :
    {V : Type ℓ} → ℕ → V → ℕ → Heap (ℕ × V) → LinkedList → Outcome (Heap (ℕ × V) × LinkedList × ℕ)
subscript a d k h l = do
  i ← search (key_from k) h l
  let add = LinkedList.insert a i (k, d) h l >>= λ r. ok (r.0, r.1, r.2.p)
  let found = deref (h i.p) >>= λ n. if n.val.0 == k then ok (h, l, i.p) else add
  if same i (end_of l) then add else found

unfoldable pub count {ℓ} : {V : Type ℓ} → ℕ → Heap (ℕ × V) → LinkedList → Outcome ℕ
count k h l = search (key_from k) h l >>= λ i.
    if same i (end_of l) then ok 0 else (deref (h i.p) >>= λ n. ok (if ltb k n.val.0 then 0 else 1))
