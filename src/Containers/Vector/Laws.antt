-- ===== src/Containers/Vector/Laws.antt =====
-- What the operations of the vector keep: its bounds, and the elements.
use flitos.Base.{
  ℕ, zero, suc, ◌+◌, ◌-◌, ◌^◌, ◌≤◌, ◌<◌, max, ◌≡◌, refl, ◌∙◌, inl, inr, ◌&&◌, Option, none, [], ◌∷◌,
  arith, ltb, leb, if◌then◌else◌, Bool-cases, lt→ltb, le→leb, length, get_or, set, take, replicate,
  length-set, length-append, length-take, length-replicate, get_or-set, get_or-append_left,
  get_or-take, ok, Returns, returns, Returns-bind,
}
use flitos.Containers.Vector.{
  Memory, Element, Vector, move_cells, reallocate_memory, each_cell, resize, at, assign,
}
use flitos.Containers.Vector.MemSize.{find_mem_size-Fits}

module _ {ℓ} {A : Type ℓ} where
  pub record IsValid (v : Vector A) : Type ℓ where
    pub within : v.size ≤ v.cap
    pub block : length v.mem ≡ v.cap
    pub small : v.cap ≤ 2 ^ 31

  -- The first `n` cells are the same.
  abbrev pub Keeps : ℕ → Memory A → Memory A → Type ℓ
  Keeps n old new = (i : ℕ) → i < n → get_or new i none ≡ get_or old i none

  pub length-each_cell :
      (f : Option A → Option A) (k i : ℕ) (m : Memory A) → length (each_cell f k i m) ≡ length m
  unfolding each_cell
  length-each_cell f zero i m = refl
  length-each_cell f (suc k) i m =
      length-each_cell f k (i + 1) (set m i (f (get_or m i none)))
      ∙ length-set m i (f (get_or m i none))

  -- The loop changes the cells of its range, each once.
  pub get_or-each_cell :
      (f : Option A → Option A) (k i : ℕ) (m : Memory A) (j : ℕ)
      → i + k ≤ length m
      → get_or (each_cell f k i m) j none
        ≡ (if leb i j && ltb j (i + k) then f (get_or m j none) else get_or m j none)
  unfolding each_cell
  get_or-each_cell f zero i m j h = ground arith
  get_or-each_cell f (suc k) i m j h = ground (
    arith,
    length-set m i (f (get_or m i none)),
    get_or-set m i (f (get_or m i none)) j none,
    get_or-each_cell f k (i + 1) (set m i (f (get_or m i none))) j,
  )

  abbrev Moved : ℕ → Memory A → ℕ → Memory A → Type ℓ
  Moved size old c new = (length new ≡ c) × Keeps size old new

  move_cells-Moved :
      (size : ℕ) (old : Memory A) (c : ℕ)
      → size ≤ length old
      → size ≤ c
      → Returns (Moved size old c) (move_cells size old c)
  move_cells-Moved size [] c h k = returns (length-replicate c none, λ i lt. absurd (omega arith))
  move_cells-Moved size (x ∷ xs) c h k =
      rw (le→leb size c k, le→leb size (length (x ∷ xs)) h)
        (returns (
          omega (
            arith,
            length-append (take size (x ∷ xs)) (replicate (c - size) none),
            length-take size (x ∷ xs) h,
            length-replicate {A = Option A} (c - size) none,
          ),
          λ i lt.
              get_or-append_left (take size (x ∷ xs)) (replicate (c - size) none) i none
                (omega (arith, length-take size (x ∷ xs) h))
              ∙ get_or-take size (x ∷ xs) i none lt,
        ))

  abbrev pub Reallocated : ℕ → Vector A → Vector A → Type ℓ
  Reallocated desire v w =
      IsValid w × (w.size ≡ v.size) × (desire ≤ w.cap) × Keeps v.size v.mem w.mem

  -- What is there moves to a block that is large enough.
  pub reallocate_memory_lem :
      (desire : ℕ) (v : Vector A)
      → IsValid v
      → v.size ≤ desire
      → desire ≤ 2 ^ 31
      → Returns (λ w. Reallocated desire v w × (2 ≤ w.cap)) (reallocate_memory desire v)
  unfolding reallocate_memory
  reallocate_memory_lem desire v ok_v big small =
      Returns-bind (find_mem_size-Fits desire small) λ c fits.
        Returns-bind
          (move_cells-Moved v.size v.mem (max 2 c) (omega (arith, ok_v)) (omega (arith, fits)))
          λ m moved. returns (
            (
              record {
                within = omega (arith, fits, ok_v);
                block = moved.0;
                small = omega (arith, fits);
              },
              refl,
              omega (arith, fits),
              moved.1,
            ),
            omega arith,
          )

  abbrev pub Resized : Element A → ℕ → Vector A → Vector A → Type ℓ
  Resized e n v w =
      IsValid w
      × (w.size ≡ n)
      × ((i : ℕ) → i < v.size → i < n → get_or w.mem i none ≡ get_or v.mem i none)
      × ((i : ℕ) → v.size ≤ i → i < n → (c : Option A) × (get_or w.mem i none ≡ e.construct c))

  fill :
      (e : Element A) (n : ℕ) (v w : Vector A)
      → Reallocated v.size v w
      → n ≤ w.cap
      → Resized e n v (record w {
        size = n;
        mem = each_cell e.destroy (w.size - n) n (each_cell e.construct (n - w.size) w.size w.mem);
      })
  fill e n v w (valid, same, room, keeps) fits = (
    record { within = fits; block = omega (arith, len, len', valid); small = valid.small },
    refl,
    λ i lt ln. ground (arith, get i, get' i, keeps i lt, len, valid, same),
    λ i le ln. (get_or w.mem i none, ground (arith, get i, get' i, len, valid, same)),
  )
    where
      built : Memory A
      built = each_cell e.construct (n - w.size) w.size w.mem

      len : length built ≡ length w.mem
      len = length-each_cell e.construct (n - w.size) w.size w.mem

      len' : length (each_cell e.destroy (w.size - n) n built) ≡ length built
      len' = length-each_cell e.destroy (w.size - n) n built

      get :
          (i : ℕ)
          → get_or built i none ≡ (
              if leb w.size i && ltb i (w.size + (n - w.size))
              then e.construct (get_or w.mem i none)
              else get_or w.mem i none)
      get i = get_or-each_cell e.construct (n - w.size) w.size w.mem i (omega (arith, valid))

      get' :
          (i : ℕ)
          → get_or (each_cell e.destroy (w.size - n) n built) i none ≡ (
              if leb n i && ltb i (n + (w.size - n))
              then e.destroy (get_or built i none)
              else get_or built i none)
      get' i = get_or-each_cell e.destroy (w.size - n) n built i (omega (arith, valid, len))

  -- `resize` of a valid vector to any size up to 2^31 returns a valid one of that size: what stays is
  -- kept, and each new cell is constructed.
  pub resize_lem :
      (e : Element A) (n : ℕ) (v : Vector A)
      → IsValid v
      → n ≤ 2 ^ 31
      → Returns (Resized e n v) (resize e n v)
  unfolding resize
  resize_lem e n v valid small = elim (Bool-cases (ltb v.cap n)) [
    | inl more ↦ rw more (
        Returns-bind (reallocate_memory_lem n v valid (ground arith) small) λ w (moved, least).
          returns (fill e n v w (moved.0, moved.1, omega (arith, moved), moved.3) moved.2))
    | inr enough ↦
        rw enough (returns (fill e n v v (valid, refl, valid.within, λ i lt. refl) (ground arith)))
  ]

  -- Inside its memory a cell can be read and written.
  pub at-ok : (i : ℕ) (v : Vector A) → i < length v.mem → at i v ≡ ok (get_or v.mem i none)
  unfolding at
  at-ok i v h = rw (lt→ltb i (length v.mem) h)

  pub assign-ok :
      (i : ℕ) (c : Option A) (v : Vector A)
      → i < length v.mem
      → assign i c v ≡ ok (record v { mem = set v.mem i c })
  unfolding assign
  assign-ok i c v h = rw (lt→ltb i (length v.mem) h)
