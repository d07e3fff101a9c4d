-- ===== src/Containers/UnorderedMap.antt =====
-- os_kernel/src/ecs_unordered_map.h: a map as a vector of pairs, here the list of its elements. A
-- value is copied as it is: what its destructor and its assignment do is not in the model.
pub mod Laws
use flitos.Base.{
  ℕ, zero, suc, ◌+◌, ◌-◌, ◌≤◌, ◌<◌, ◌≡◌, refl, ap, sym, ◌∙◌, arith, Bool, true, false, ◌||◌, ltb,
  ◌==◌, if◌then◌else◌, List, [], ◌∷◌, ◌++◌, length, get_or, set, Table, contains, index, insert,
  Outcome, ok, hang, Bool-cases, inl, inr, ==_refl, ==→eq, subst,
}

module _ {V : Type 0} where
  -- `find`: the index of the first pair with the key, or that of `end()`.
  pub find : ℕ → Table V → ℕ
  find k [] = 0
  find k ((j, v) ∷ m) = if j == k then 0 else suc (find k m)

  -- Whether `find` gives something other than `end()`.
  pub found : ℕ → Table V → Bool
  found k m = ltb (find k m) (length m)

  -- `count`
  pub count_of : ℕ → Table V → ℕ
  count_of k m = if found k m then 1 else 0

  pub at : V → ℕ → Table V → Outcome V
  at d k m = if found k m then ok ((get_or m (find k m) (k, d)).1) else hang

  -- `operator []`, which makes an entry with the default value: what it finds, and the map.
  pub subscript : V → ℕ → Table V → V × Table V
  subscript d k m =
      if found k m then ((get_or m (find k m) (k, d)).1, m) else (d, m ++ ((k, d) ∷ []))

  -- `m[k] = v`
  pub subscript_assign : V → ℕ → V → Table V → Table V
  subscript_assign d k v m = let n = (subscript d k m).1 in set n (find k n) (k, v)

  -- `insert`, and whether the pair is new
  pub insert_pair : ℕ × V → Table V → Bool × Table V
  insert_pair (k, v) m = if found k m then (false, m) else (true, m ++ ((k, v) ∷ []))

  -- `storage_.pop_back()`
  pub drop_last : Table V → Table V
  drop_last [] = []
  drop_last (p ∷ []) = []
  drop_last (p ∷ q ∷ m) = p ∷ drop_last (q ∷ m)

  -- `storage_.at(storage_.size() - 1)`
  pub last_of : ℕ × V → Table V → ℕ × V
  last_of p m = get_or m (length m - 1) p

  -- `erase`: the last pair takes the place of the one that goes.
  pub erase : V → ℕ → Table V → Table V
  erase d k m = if found k m then drop_last (set m (find k m) (last_of (k, d) m)) else m
