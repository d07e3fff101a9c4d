-- ===== src/Containers/Vector/Ends.antt =====
-- What the vector does at its end: `push_back`, `pop_back`; and what `reserve` does to its elements.
use flitos.Base.{
  ℕ, ◌+◌, ◌-◌, ◌*◌, ◌%◌, ◌^◌, ◌≤◌, ◌<◌, max, ◌≡◌, refl, inl, inr, false, none, some, [], ◌∷◌, arith,
  ltb, leb, if◌then◌else◌, Bool-cases, length, get_or, length-set, get_or-set, ok, ◌>>=◌, Returns,
  returns, Returns-bind, Returns-mono, Returns-value, fault,
}
use flitos.Containers.Vector.{
  Memory, Element, Vector, move_cells, reallocate_memory, reserve, assign, push_back, pop_back,
}
use flitos.Containers.Vector.MemSize.{find_mem_size-Fits}
use flitos.Containers.Vector.Laws.{
  IsValid, Keeps, Reallocated, reallocate_memory_lem, resize_lem, assign-ok,
}

module _ {ℓ} {A : Type ℓ} where
  abbrev pub Pushed : A → Vector A → Vector A → Type ℓ
  Pushed x v w =
      IsValid w
      × (w.size ≡ v.size + 1)
      × Keeps v.size v.mem w.mem
      × (get_or w.mem v.size none ≡ some x)

  store :
      (x : A) (v w : Vector A)
      → Reallocated (v.size + 1) v w
      → Returns
          (Pushed x v)
          (assign w.size (some x) w >>= λ u. ok (record u { size = (u.size + 1) % 2 ^ 32 }))
  store x v w (valid, same, room, keeps) = rw (assign-ok w.size (some x) w (omega (arith, valid))) (
      returns (
        record {
          within = omega (arith, valid);
          block = omega (arith, valid, length-set w.mem w.size (some x));
          small = valid.small;
        },
        omega (arith, valid),
        λ i lt. ground (arith, get_or-set w.mem w.size (some x) i none, keeps i lt, valid),
        ground (arith, get_or-set w.mem w.size (some x) v.size none, valid),
      ))

  -- `push_back` on a valid vector of a capacity up to 2^30 returns a valid one with the element behind
  -- the others.
  pub push_back_lem :
      (x : A) (v : Vector A) → IsValid v → v.cap ≤ 2 ^ 30 → Returns (Pushed x v) (push_back x v)
  unfolding push_back
  push_back_lem x v valid small =
      let plain : (v.size + 1) % 2 ^ 32 ≡ v.size + 1 = omega (arith, valid) in
      let twice : v.cap * 2 % 2 ^ 32 ≡ v.cap * 2 = omega arith in
      rw (plain, twice)
        (elim (Bool-cases (ltb v.cap (v.size + 1))) [
          | inl full ↦ rw full (
              Returns-bind
                (reallocate_memory_lem (v.cap * 2) v valid (omega (arith, valid)) (omega arith))
                λ w (moved, least). store x v w (moved.0, moved.1, ground (arith, moved), moved.3))
          | inr room ↦ rw room (store x v v (valid, refl, ground arith, λ i lt. refl))
        ])

  -- `pop_back` on a valid vector returns a valid one without the last element, if there is one, and
  -- with the others.
  pub pop_back_lem :
      (e : Element A) (v : Vector A)
      → IsValid v
      → Returns
          (λ w. IsValid w × (w.size ≡ v.size - 1) × Keeps (v.size - 1) v.mem w.mem)
          (pop_back e v)
  unfolding pop_back
  pop_back_lem e v valid =
      let same : (if ltb 0 v.size then v.size - 1 else 0) ≡ v.size - 1 = ground arith in
      rw same (
        Returns-mono (resize_lem e (v.size - 1) v valid (omega (arith, valid)))
          λ w (good, size, keeps, new). (good, size, λ i lt. keeps i (omega arith) lt))

  -- `reserve` on a valid vector of more than two elements, to at most half of their number, copies past
  -- the end of its new block.
  pub reserve-fault :
      (n : ℕ) (v : Vector A) → IsValid v → 2 * n ≤ v.size → 2 < v.size → reserve n v ≡ fault
  unfolding reserve reallocate_memory
  reserve-fault n v valid h two =
      let (c, e, fits) = Returns-value (find_mem_size-Fits n (omega (arith, valid))) in
      rw e (gone c (ground (arith, fits)) v.mem (omega (arith, valid)))
    where
      gone :
          (c : ℕ)
          → max 2 c < v.size
          → (m : Memory A) → v.size ≤ length m
          → (move_cells v.size m (max 2 c) >>= λ m'. ok (record v { cap = max 2 c; mem = m' }))
            ≡ fault
      gone c small [] len = absurd (omega arith)
      gone c small (x ∷ xs) len = let no : leb v.size (max 2 c) ≡ false = ground arith in rw no
