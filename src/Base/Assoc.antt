-- ===== src/Base/Assoc.antt =====
-- A map as an association list: what `ecs::map` and `ecs::unordered_map` hold, whatever its order.
use flitos.Base.Tests.{Bool-cases, ltb, ◌==◌, if◌then◌else◌}
use flitos.Base.Results.{Outcome, ok, fault, Returns, returns}
use Prim.Native.Nat.{ℕ, ◌+◌, ◌%◌, ◌^◌, ◌≤◌}
use mathlib.Core.Path.{◌≡◌, refl, sym, ap, subst}
use mathlib.Core.Logic.{inl, inr}
use mathlib.Core.Bool.{Bool, true, false, ◌||◌, ◌&&◌}
use mathlib.Core.List.{List, [], ◌∷◌}
use native.Mathlib.Omega.{arith}

abbrev pub Table {ℓ} : Type ℓ → Type ℓ
Table V = List (ℕ × V)

-- The order of `int` on 32-bit patterns.
abbrev int_order : ℕ → ℕ
int_order j = (j + 2 ^ 31) % 2 ^ 32

module _ {ℓ} {V : Type ℓ} where
  -- `count(key) > 0`
  unfoldable pub contains : ℕ → Table V → Bool
  contains k [] = false
  contains k ((j, v) ∷ t) = (j == k) || contains k t

  -- The value that `operator []` finds, or the default that it would insert.
  unfoldable pub index : V → ℕ → Table V → V
  index d k [] = d
  index d k ((j, v) ∷ t) = if j == k then v else index d k t

  unfoldable pub insert : ℕ → V → Table V → Table V
  insert k v [] = (k, v) ∷ []
  insert k v ((j, w) ∷ t) = if j == k then (k, v) ∷ t else (j, w) ∷ insert k v t

  -- `erase(key)`
  unfoldable pub remove : ℕ → Table V → Table V
  remove k [] = []
  remove k ((j, v) ∷ t) = if j == k then t else (j, v) ∷ remove k t

  -- Whether a key before `k`, or behind it, is in the map, both as an `int`.
  unfoldable pub has_below : ℕ → Table V → Bool
  has_below k [] = false
  has_below k ((j, v) ∷ t) = ltb (int_order j) (int_order k) || has_below k t

  unfoldable pub has_above : ℕ → Table V → Bool
  has_above k [] = false
  has_above k ((j, v) ∷ t) = ltb (int_order k) (int_order j) || has_above k t

  -- `ecs::map::erase`. Where the key is the first or the last one, `ecs::list` goes on to point to the
  -- node that it freed, and the next search reads that: this counts as the fault.
  unfoldable pub erase_key : ℕ → Table V → Outcome (Table V)
  erase_key k t =
      if contains k t
      then (if has_below k t && has_above k t then ok (remove k t) else fault)
      else ok t

module _ {V : Type 0} where
  pub index-insert :
      (d : V) (k : ℕ) (v : V) (t : Table V) (j : ℕ)
      → index d j (insert k v t) ≡ (if k == j then v else index d j t)
  unfolding index insert
  index-insert d k v [] j = refl
  index-insert d k v ((i, w) ∷ t) j = ground (arith, index-insert d k v t j)

  pub contains-insert :
      (k : ℕ) (v : V) (t : Table V) (j : ℕ)
      → contains j (insert k v t) ≡ (if k == j then true else contains j t)
  unfolding contains insert
  contains-insert k v [] j = ground arith
  contains-insert k v ((i, w) ∷ t) j = ground (arith, contains-insert k v t j)

  -- The sum of a weight over the values.
  unfoldable pub total : (V → ℕ) → Table V → ℕ
  total w [] = 0
  total w ((j, v) ∷ t) = w v + total w t

  pub total-insert :
      (w : V → ℕ) (d : V) (k : ℕ) (v : V) (t : Table V)
      → w d ≡ 0
      → total w (insert k v t) + w (index d k t) ≡ total w t + w v
  unfolding total insert index
  total-insert w d k v [] e = omega arith
  total-insert w d k v ((j, u) ∷ t) e = ground (arith, total-insert w d k v t e)

  pub index-le-total :
      (w : V → ℕ) (d : V) (k : ℕ) (t : Table V) → w d ≡ 0 → w (index d k t) ≤ total w t
  unfolding total index
  index-le-total w d k [] e = omega arith
  index-le-total w d k ((j, u) ∷ t) e = ground (arith, index-le-total w d k t e)

  pub total-remove :
      (w : V → ℕ) (d : V) (k : ℕ) (t : Table V)
      → w d ≡ 0
      → total w (remove k t) + w (index d k t) ≡ total w t
  unfolding total remove index
  total-remove w d k [] e = omega arith
  total-remove w d k ((j, u) ∷ t) e = ground (arith, total-remove w d k t e)

  -- The other entries stay.
  pub index-remove :
      (d : V) (k : ℕ) (t : Table V) (j : ℕ)
      → (k == j) ≡ false
      → index d j (remove k t) ≡ index d j t
  unfolding index remove
  index-remove d k [] j ne = refl
  index-remove d k ((i, w) ∷ t) j ne = ground (arith, index-remove d k t j ne)

  pub index-absent : (d : V) (k : ℕ) (t : Table V) → contains k t ≡ false → index d k t ≡ d
  unfolding index contains
  index-absent d k [] h = refl
  index-absent d k ((i, w) ∷ t) h = ground (arith, index-absent d k t)

  pub remove-absent : (k : ℕ) (t : Table V) → contains k t ≡ false → remove k t ≡ t
  unfolding contains remove
  remove-absent k [] h = refl
  remove-absent k ((i, w) ∷ t) h = elim (Bool-cases (i == k)) [
    | inl same ↦ absurd (ground (arith, h, same))
    | inr other ↦ rw other (
        ap (λ u. (i, w) ∷ u) (remove-absent k t (subst (λ b. (b || contains k t) ≡ false) other h)))
  ]

  -- A key that is in the map is neither the first nor the last one.
  abbrev pub Erasable : ℕ → Table V → Type 0
  Erasable k t = contains k t ≡ true → (has_below k t && has_above k t) ≡ true

  pub erase_key-Returns :
      (k : ℕ) (t : Table V) → Erasable k t → Returns (λ u. u ≡ remove k t) (erase_key k t)
  unfolding erase_key
  erase_key-Returns k t between = elim (Bool-cases (contains k t)) [
    | inl there ↦ rw (there, between there) (returns refl)
    | inr absent ↦ rw absent (returns (sym (remove-absent k t absent)))
  ]
