-- ===== src/Containers/UnorderedMap/Laws.antt =====
-- The unordered map as an association list: assignment, reading and erasing by key.
use flitos.Base.{
  ℕ, zero, suc, ◌-◌, ◌≡◌, refl, ap, ◌∙◌, arith, true, false, ◌==◌, if◌then◌else◌, [], ◌∷◌, ◌++◌,
  length, get_or, set, Table, contains, index, insert, ok, hang, Bool-cases, inl, inr, ==_refl,
  ==→eq, subst,
}
use flitos.Containers.UnorderedMap.{
  find, found, at, subscript, subscript_assign, drop_last, last_of, erase,
}

module _ {V : Type 0} where
  -- No key twice.
  abbrev pub Distinct : Table V → Type 0
  Distinct [] = Unit {0}
  Distinct ((k, v) ∷ m) = (contains k m ≡ false) × Distinct m

  found-contains : (k : ℕ) (m : Table V) → found k m ≡ contains k m
  unfolding found find contains
  found-contains k [] = refl
  found-contains k ((j, v) ∷ m) = ground (arith, found-contains k m)

  set-end :
      (k : ℕ) (d v : V) (m : Table V)
      → contains k m ≡ false
      → set (m ++ ((k, d) ∷ [])) (find k (m ++ ((k, d) ∷ []))) (k, v) ≡ insert k v m
  unfolding find contains insert
  set-end k d v [] new = rw (==_refl k) refl
  set-end k d v ((j, w) ∷ m) new = elim (Bool-cases (j == k)) [
    | inl same ↦ absurd (ground arith)
    | inr other ↦ rw other (ap (λ x. (j, w) ∷ x) (set-end k d v m (ground arith)))
  ]

  set-found :
      (k : ℕ) (v : V) (m : Table V) → contains k m ≡ true → set m (find k m) (k, v) ≡ insert k v m
  unfolding find contains insert
  set-found k v [] old = absurd (ground arith)
  set-found k v ((j, w) ∷ m) old = elim (Bool-cases (j == k)) [
    | inl same ↦ rw same refl
    | inr other ↦ rw other (ap (λ x. (j, w) ∷ x) (set-found k v m (ground arith)))
  ]

  -- `m[k] = v` is the insertion of an association list: it replaces the value of a key that is there
  -- at its place, and puts a new key at the end.
  pub subscript_assign-insert :
      (d : V) (k : ℕ) (v : V) (m : Table V) → subscript_assign d k v m ≡ insert k v m
  unfolding subscript_assign subscript
  subscript_assign-insert d k v m = elim (Bool-cases (contains k m)) [
    | inl old ↦ rw (found-contains k m ∙ old) (set-found k v m old)
    | inr new ↦ rw (found-contains k m ∙ new) (set-end k d v m new)
  ]

  get_or-find :
      (d : V) (k : ℕ) (m : Table V)
      → contains k m ≡ true
      → (get_or m (find k m) (k, d)).1 ≡ index d k m
  unfolding find contains index
  get_or-find d k [] old = absurd (ground arith)
  get_or-find d k ((j, w) ∷ m) old = elim (Bool-cases (j == k)) [
    | inl same ↦ rw same refl
    | inr other ↦ rw other (get_or-find d k m (ground arith))
  ]

  -- `at` of a key that is there reads its value, and of another key it never returns.
  pub at-index :
      (d : V) (k : ℕ) (m : Table V) → at d k m ≡ (if contains k m then ok (index d k m) else hang)
  unfolding at
  at-index d k m = elim (Bool-cases (contains k m)) [
    | inl old ↦ rw (found-contains k m, old) (ap ok (get_or-find d k m old))
    | inr new ↦ rw (found-contains k m, new) refl
  ]

  last_of-cons : (p x y : ℕ × V) (m : Table V) → last_of p (x ∷ y ∷ m) ≡ last_of p (y ∷ m)
  unfolding last_of
  last_of-cons p x y m =
      let a : length (x ∷ y ∷ m) - 1 ≡ suc (length m) = omega arith in
      let b : length m ≡ length (y ∷ m) - 1 = omega arith in
      ap (λ i. get_or (x ∷ y ∷ m) i p) a ∙ ap (λ i. get_or (y ∷ m) i p) b

  -- Where the last pair goes to the front, every key keeps its value.
  rotate :
      (d : V) (p y : ℕ × V) (m : Table V) (j : ℕ)
      → Distinct (y ∷ m)
      → (index d j (last_of p (y ∷ m) ∷ drop_last (y ∷ m)) ≡ index d j (y ∷ m))
        × (contains j (last_of p (y ∷ m) ∷ drop_last (y ∷ m)) ≡ contains j (y ∷ m))
  unfolding drop_last index contains
  rotate d p y [] j distinct = unfold last_of in (refl, refl)
  rotate d p y (z ∷ m) j distinct =
      let here = rotate d p z m j distinct.1 in
      let there = rotate d p z m y.0 distinct.1 in
      rw (last_of-cons p y z m)
        (ground (arith, here, there, distinct.0), ground (arith, here, there, distinct.0))

  index-absent : (d : V) (k : ℕ) (m : Table V) → contains k m ≡ false → index d k m ≡ d
  unfolding contains index
  index-absent d k [] new = refl
  index-absent d k ((j, w) ∷ m) new = ground (arith, index-absent d k m)

  set-nonempty :
      (y x : ℕ × V) (m : Table V) (i : ℕ) (q : ℕ × V)
      → drop_last (y ∷ set (x ∷ m) i q) ≡ y ∷ drop_last (set (x ∷ m) i q)
  unfolding drop_last
  set-nonempty y x m zero q = refl
  set-nonempty y x m (suc i) q = refl

  find-cons :
      (k j : ℕ) (w : V) (m : Table V) → (j == k) ≡ false → find k ((j, w) ∷ m) ≡ suc (find k m)
  unfolding find
  find-cons k j w m other = rw other refl

  erase-cons :
      (d : V) (k j : ℕ) (w : V) (m : Table V)
      → (j == k) ≡ false
      → erase d k ((j, w) ∷ m) ≡ (j, w) ∷ erase d k m
  unfolding erase contains
  erase-cons d k j w [] other = rw (found-contains k ((j, w) ∷ []), found-contains k [], other) refl
  erase-cons d k j w (x ∷ m) other = elim (Bool-cases (contains k (x ∷ m))) [
    | inl old ↦
        rw
          (
            found-contains k ((j, w) ∷ x ∷ m),
            found-contains k (x ∷ m),
            other,
            old,
            find-cons k j w (x ∷ m) other,
            last_of-cons (k, d) (j, w) x m,
          )
          (set-nonempty (j, w) x m (find k (x ∷ m)) (last_of (k, d) (x ∷ m)))
    | inr new ↦ rw (found-contains k ((j, w) ∷ x ∷ m), found-contains k (x ∷ m), other, new) refl
  ]

  erase-front :
      (d : V) (k : ℕ) (w : V) (x : ℕ × V) (m : Table V)
      → erase d k ((k, w) ∷ x ∷ m) ≡ last_of (k, d) (x ∷ m) ∷ drop_last (x ∷ m)
  unfolding erase find contains drop_last
  erase-front d k w x m =
      rw (found-contains k ((k, w) ∷ x ∷ m), ==_refl k, last_of-cons (k, d) (k, w) x m) refl

  -- What a key reads as behind `erase`.
  abbrev pub Erased : V → ℕ → Table V → Table V → ℕ → Type 0
  Erased d k m n i =
      (index d i n ≡ (if k == i then d else index d i m))
      × (contains i n ≡ (if k == i then false else contains i m))

  -- The entry at the front goes.
  erase-head :
      (d : V) (k : ℕ) (w : V) (m : Table V)
      → contains k m ≡ false
      → Distinct m
      → (i : ℕ) → Erased d k m (erase d k ((k, w) ∷ m)) i
  unfolding erase find contains index drop_last
  erase-head d k w [] new distinct i =
      rw (found-contains k ((k, w) ∷ []), ==_refl k) (ground arith, ground arith)
  erase-head d k w (x ∷ m) new distinct i =
      let (value, there) = rotate d (k, d) x m i distinct in
      elim (Bool-cases (k == i)) [
        | inl same ↦
            let e = ==→eq k i same in
            rw (erase-front d k w x m, same)
              (
                value ∙ subst (λ u. index d u (x ∷ m) ≡ d) e (index-absent d k (x ∷ m) new),
                there ∙ subst (λ u. contains u (x ∷ m) ≡ false) e new,
              )
        | inr other ↦ rw (erase-front d k w x m, other) (value, there)
      ]

  -- In a map with no key twice, behind `erase` of `k` every other key is there if it was there, and
  -- has its value, although the last pair has moved; `k` is not there any more.
  pub erase-Erased :
      (d : V) (k : ℕ) (m : Table V) → Distinct m → (i : ℕ) → Erased d k m (erase d k m) i
  unfolding contains index
  erase-Erased d k [] distinct i = unfold erase found find in (ground arith, ground arith)
  erase-Erased d k ((j, w) ∷ m) distinct i = elim (Bool-cases (j == k)) [
    | inl same ↦
        let e = ==→eq j k same in
        let (value, there) = erase-head d j w m distinct.0 distinct.1 i in
        subst (λ u. Erased d u ((j, w) ∷ m) (erase d u ((j, w) ∷ m)) i) e
          (value ∙ ground arith, there ∙ ground arith)
    | inr other ↦
        let (value, there) = erase-Erased d k m distinct.1 i in
        rw (erase-cons d k j w m other) (ground (arith, value, other), ground (arith, there, other))
  ]
