-- ===== src/Containers/Deque/Reverse.antt =====
-- `invert_data` reverses a range of the storage, cell by cell.
use flitos.Base.{
  ℕ, zero, suc, ◌+◌, ◌-◌, ◌<◌, ◌≡◌, refl, ap, ◌∙◌, inl, inr, Bool, true, false, ◌&&◌, none, arith,
  ltb, leb, ◌==◌, if◌then◌else◌, Bool-cases, ltb→lt, length, get_or, set, length-set, get_or-set,
  Returns, returns, Returns-bind, Returns-mono,
}
use flitos.Containers.Vector.{Vector, Memory}
use flitos.Containers.Vector.Laws.{at-ok, assign-ok}
use flitos.Containers.Deque.{exchange, invert_loop, invert_data}

-- Where the cell `j` comes from when the range from `p1` to `p2` is reversed.
abbrev pub mirror : ℕ → ℕ → ℕ → ℕ
mirror p1 p2 j = if leb p1 j && leb j p2 then p1 + p2 - j else j

module _ {ℓ} {A : Type ℓ} where
  -- The vector `w` is `v` with its cells taken from elsewhere.
  pub record Moved (from : ℕ → ℕ) (v w : Vector A) : Type ℓ where
    pub size : w.size ≡ v.size
    pub cap : w.cap ≡ v.cap
    pub block : length w.mem ≡ length v.mem
    pub cells : (j : ℕ) → get_or w.mem j none ≡ get_or v.mem (from j) none

  unmoved : (v : Vector A) → Moved (λ j. j) v v
  unmoved v = record { size = refl; cap = refl; block = refl; cells = λ j. refl }

  -- One rearrangement after another is any that takes each cell from the same place.
  pub after :
      {f g h : ℕ → ℕ} {u v w : Vector A}
      → Moved f u v
      → Moved g v w
      → ((j : ℕ) → f (g j) ≡ h j)
      → Moved h u w
  after {g} {u} a b same = record {
    size = b.size ∙ a.size;
    cap = b.cap ∙ a.cap;
    block = b.block ∙ a.block;
    cells = λ j. b.cells j ∙ a.cells (g j) ∙ ap (λ i. get_or u.mem i none) (same j);
  }

  read-if :
      (m : Memory A) (b : Bool) (i j : ℕ)
      → (if b then get_or m i none else get_or m j none) ≡ get_or m (if b then i else j) none
  read-if m true i j = refl
  read-if m false i j = refl

  exchange_lem :
      (p1 p2 : ℕ) (v : Vector A)
      → p1 < p2
      → p2 < length v.mem
      → Returns
          (Moved (λ j. if p2 == j then p1 else if p1 == j then p2 else j) v)
          (exchange p1 p2 v)
  unfolding exchange
  exchange_lem p1 p2 v h k =
      let u : Vector A = record v { mem = set v.mem p1 (get_or v.mem p2 none) } in
      rw
        (
          at-ok p1 v (omega arith),
          at-ok p2 v k,
          assign-ok p1 (get_or v.mem p2 none) v (omega arith),
          assign-ok p2 (get_or v.mem p1 none) u
              (omega (arith, length-set v.mem p1 (get_or v.mem p2 none))),
        )
        (returns (record {
          size = refl;
          cap = refl;
          block =
              length-set (set v.mem p1 (get_or v.mem p2 none)) p2 (get_or v.mem p1 none)
              ∙ length-set v.mem p1 (get_or v.mem p2 none);
          cells = λ j.
              rw
                (
                  get_or-set u.mem p2 (get_or v.mem p1 none) j none
                      (omega (arith, length-set v.mem p1 (get_or v.mem p2 none))),
                  get_or-set v.mem p1 (get_or v.mem p2 none) j none (omega arith),
                  read-if v.mem (p1 == j) p2 j,
                )
                (read-if v.mem (p2 == j) p1 (if p1 == j then p2 else j));
        }))

  invert_loop_lem :
      (f p1 p2 : ℕ) (v : Vector A)
      → p2 < length v.mem
      → p2 < p1 + f
      → 0 < f
      → Returns (Moved (mirror p1 p2) v) (invert_loop f p1 p2 v)
  unfolding invert_loop
  invert_loop_lem zero p1 p2 v h fuel some_fuel = absurd (omega arith)
  invert_loop_lem (suc f) p1 p2 v h fuel some_fuel = elim (Bool-cases (ltb p1 p2)) [
    | inl more ↦ rw more (
        Returns-bind (exchange_lem p1 p2 v (ltb→lt p1 p2 more) h) λ w x.
          let lt : p1 < p2 = ltb→lt p1 p2 more in
          Returns-mono
            (invert_loop_lem f (p1 + 1) (p2 - 1) w (omega (arith, x.block)) (omega arith)
              (omega arith))
            λ u m. after x m (λ j. ground arith))
    | inr done ↦ rw done (returns (after (unmoved v) (unmoved v) (λ j. ground arith)))
  ]

  -- `invert_data` ends, and reverses the cells from `p1` to `p2`.
  pub invert_data_lem :
      (p1 p2 : ℕ) (v : Vector A)
      → p2 < length v.mem
      → Returns (Moved (mirror p1 p2) v) (invert_data p1 p2 v)
  unfolding invert_data
  invert_data_lem p1 p2 v h = invert_loop_lem (p2 + 1) p1 p2 v h (omega arith) (omega arith)
