-- ===== src/Containers/OrderedMap/Search.antt =====
-- `find_if` on the cells of the list, and what `at` and `count` make of it.
use flitos.Base.{
  ℕ, zero, suc, ◌+◌, ◌≡◌, refl, ap, arith, ◌≤◌, Bool, true, false, ◌==◌, leb, ltb, ltb→lt, not,
  Bool-cases, inl, inr, ne→==, if◌then◌else◌, List, [], ◌∷◌, length, map, Table, contains, ◌<◌,
  Outcome, ok, hang, ◌>>=◌,
}
use flitos.Containers.LinkedList.{
  Heap, LinkedList, Iterator, deref, same, begin_of, end_of, increment,
}
use flitos.Containers.LinkedList.Linked.{Holds, Linked, last_or}
use flitos.Containers.LinkedList.Iterators.{same-before_end, same-end}
use flitos.Containers.OrderedMap.{find_if, search, key_is, key_from, at, count}

module _ {ℓ} {A : Type ℓ} where
  -- The first cell that passes the test, or the end of the list whose last node is `e`
  unfoldable pub first_at : (A → Bool) → ℕ → List (ℕ × A) → Iterator
  first_at test e [] = record { p = e; reach_end = true }
  first_at test e ((a, v) ∷ cs) =
      if test v then record { p = a; reach_end = false } else first_at test e cs

  find_if-first :
      (f : ℕ) (test : A → Bool) (h : Heap A) (p a : ℕ) (v : A) (cs : List (ℕ × A))
      → Linked h p ((a, v) ∷ cs) 0
      → length cs + 2 ≤ f
      → find_if f test
          (record { p = a; reach_end = false })
          (record { p = last_or a cs; reach_end = true })
          h
        ≡ ok (first_at test (last_or a cs) ((a, v) ∷ cs))
  unfolding find_if first_at increment
  find_if-first zero test h p a v cs linked enough = absurd (omega arith)
  find_if-first (suc zero) test h p a v cs linked enough = absurd (omega arith)
  find_if-first (suc (suc f)) test h p a v [] (there, stands, _) enough =
      elim (Bool-cases (test v)) [
        | inl hit ↦ rw (same-before_end a a there, stands, hit) refl
        | inr miss ↦ rw (same-before_end a a there, stands, miss, ne→== a 0 there, same-end a) refl
      ]
  find_if-first (suc (suc f)) test h p a v ((b, w) ∷ cs) (there, stands, rest) enough =
      let later = find_if-first (suc f) test h a b w cs rest (omega arith) in
      elim (Bool-cases (test v)) [
        | inl hit ↦ rw (same-before_end a (last_or b cs) there, stands, hit) refl
        | inr miss ↦
            rw
              (
                same-before_end a (last_or b cs) there,
                stands,
                miss,
                ne→== a 0 there,
                ne→== b 0 rest.0,
              )
              later
      ]

  -- On a list that holds `cs` the search finds the first cell that passes the test, or the end.
  pub search-first :
      (test : A → Bool) (h : Heap A) (l : LinkedList) (cs : List (ℕ × A))
      → Holds h l cs
      → search test h l ≡ ok (first_at test (last_or 0 cs) cs)
  unfolding begin_of end_of find_if same first_at
  search-first test h l [] held = rw (held.sized, held.begins, held.ends) refl
  search-first test h l ((a, v) ∷ cs) held =
      rw (held.begins, held.ends, held.sized)
        (find_if-first _ test h 0 a v cs held.linked (omega arith))

key_above : (k j : ℕ) → leb k j ≡ false → (j == k) ≡ false
key_above k j miss = ground arith

key_met : (k j : ℕ) → leb k j ≡ true → ltb k j ≡ false → (j == k) ≡ true
key_met k j low high = ground arith

abbrev pub zero_if : Bool → ℕ
zero_if b = if b then 0 else 1

-- What `at` reads of the pairs: the value of the first with the key, or it never returns.
pub value_of {ℓ} : {V : Type ℓ} → ℕ → Table V → Outcome V
value_of k [] = hang
value_of k ((j, v) ∷ t) = if j == k then ok v else value_of k t

-- No pair's key is above a later one's, or equal to it.
unfoldable pub Ascending {ℓ} : {V : Type ℓ} → Table V → Type 0
Ascending [] = Unit {0}
Ascending ((j, v) ∷ []) = Unit {0}
Ascending ((j, v) ∷ (k, w) ∷ t) = (j < k) × Ascending ((k, w) ∷ t)

module _ {ℓ} {V : Type ℓ} where
  read_first :
      (k e p : ℕ) (h : Heap (ℕ × V)) (cs : List (ℕ × (ℕ × V)))
      → Linked h p cs 0
      → (let i = first_at (key_is k) e cs in
          if same i (record { p = e; reach_end = true })
          then hang
          else (deref (h i.p) >>= λ n. ok n.val.1))
        ≡ value_of k (map (λ c. c.1) cs)
  unfolding first_at value_of
  read_first k e p h [] linked = rw (same-end e) refl
  read_first k e p h ((a, (j, v)) ∷ cs) (there, stands, rest) = elim (Bool-cases (j == k)) [
    | inl hit ↦ rw (hit, same-before_end a e there, stands) refl
    | inr miss ↦ rw miss (read_first k e a h cs rest)
  ]

  -- On a list that holds `cs`, `at` returns the value of the first pair with the key, and never returns
  -- where there is none.
  pub at-value_of :
      (k : ℕ) (h : Heap (ℕ × V)) (l : LinkedList) (cs : List (ℕ × (ℕ × V)))
      → Holds h l cs
      → at k h l ≡ value_of k (map (λ c. c.1) cs)
  unfolding at end_of
  at-value_of k h l cs held =
      rw (search-first (key_is k) h l cs held, held.ends)
        (read_first k (last_or 0 cs) 0 h cs held.linked)

  behind :
      (j : ℕ) (v : V) (cs : List (ℕ × (ℕ × V)))
      → Ascending ((j, v) ∷ map (λ c. c.1) cs)
      → Ascending (map (λ c. c.1) cs)
  unfolding Ascending
  behind j v [] up = tt
  behind j v (c ∷ cs) (less, up) = up

  -- Above `k` an ascending list does not have it.
  above-absent :
      (k j : ℕ) (v : V) (cs : List (ℕ × (ℕ × V)))
      → k < j
      → Ascending ((j, v) ∷ map (λ c. c.1) cs)
      → contains k ((j, v) ∷ map (λ c. c.1) cs) ≡ false
  unfolding Ascending contains
  above-absent k j v [] less up = rw (ne→== j k (λ e. omega arith)) refl
  above-absent k j v ((a, (i, w)) ∷ cs) less (above, up) =
      rw (ne→== j k (λ e. omega arith)) (above-absent k i w cs (omega arith) up)

  reached :
      (k j : ℕ) (v : V) (cs : List (ℕ × (ℕ × V)))
      → leb k j ≡ true
      → Ascending ((j, v) ∷ map (λ c. c.1) cs)
      → zero_if (ltb k j) ≡ zero_if (not (contains k ((j, v) ∷ map (λ c. c.1) cs)))
  unfolding contains
  reached k j v cs hit up = elim (Bool-cases (ltb k j)) [
    | inl less ↦ rw (less, above-absent k j v cs (ltb→lt k j less) up) refl
    | inr met ↦ rw (met, key_met k j hit met) refl
  ]

  count_first :
      (k e p : ℕ) (h : Heap (ℕ × V)) (cs : List (ℕ × (ℕ × V)))
      → Linked h p cs 0
      → Ascending (map (λ c. c.1) cs)
      → (let i = first_at (key_from k) e cs in
          if same i (record { p = e; reach_end = true })
          then ok 0
          else (deref (h i.p) >>= λ n. ok (zero_if (ltb k n.val.0))))
        ≡ ok (zero_if (not (contains k (map (λ c. c.1) cs))))
  unfolding first_at contains Ascending
  count_first k e p h [] linked up = rw (same-end e) refl
  count_first k e p h ((a, (j, v)) ∷ cs) (there, stands, rest) up = elim (Bool-cases (leb k j)) [
    | inl hit ↦ rw (hit, same-before_end a e there, stands) (ap ok (reached k j v cs hit up))
    | inr miss ↦ rw (miss, key_above k j miss) (count_first k e a h cs rest (behind j v cs up))
  ]

  -- On a list whose keys ascend, `count` is 1 for a key that is there and 0 for another.
  pub count-contains :
      (k : ℕ) (h : Heap (ℕ × V)) (l : LinkedList) (cs : List (ℕ × (ℕ × V)))
      → Holds h l cs
      → Ascending (map (λ c. c.1) cs)
      → count k h l ≡ ok (zero_if (not (contains k (map (λ c. c.1) cs))))
  unfolding count end_of
  count-contains k h l cs held up =
      rw (search-first (key_from k) h l cs held, held.ends)
        (count_first k (last_or 0 cs) 0 h cs held.linked up)
