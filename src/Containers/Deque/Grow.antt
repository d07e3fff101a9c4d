-- ===== src/Containers/Deque/Grow.antt =====
-- Growing a full deque: the elements are turned to the front, and the storage gets a slot more.
use flitos.Base.{
  ℕ, ◌+◌, ◌-◌, ◌%◌, ◌^◌, ◌≤◌, ◌<◌, ◌≡◌, refl, ap, ◌∙◌, inl, inr, none, arith, ◌==◌, if◌then◌else◌,
  Bool-cases, ==→eq, get_or, Returns, returns, Returns-bind,
}
use flitos.Containers.Vector.{Vector, scalar}
use flitos.Containers.Vector.Laws
use flitos.Containers.Deque.Reverse.{mirror, Moved, after, invert_data_lem}
use flitos.Containers.Deque.Valid.{IsValid, position, cell, contents, tabulate_ext}
use flitos.Containers.Deque.{Deque, capacity, size, normalize_idx, grow}

-- The three reversals turn the whole array by `idx_begin_`.
turn : ℕ → ℕ → ℕ → ℕ
turn s b j = mirror 0 (b - 1) (mirror b (s - 1) (mirror 0 (s - 1) j))

turn-position : (s b j : ℕ) → 0 < b → b < s → j < s → turn s b j ≡ position s b j
unfolding turn
turn-position s b j h k l = ground arith

module _ {ℓ} {A : Type ℓ} where
  -- A full deque, turned so that its first element stands at index 0.
  record Turned (d n : Deque A) : Type ℓ where
    vector : Laws.IsValid n.storage
    size : n.storage.size ≡ d.storage.size
    at_zero : n.idx_begin ≡ 0
    at_end : n.idx_end ≡ d.storage.size - 1
    cells : (i : ℕ) → i < d.storage.size - 1 → get_or n.storage.mem i none ≡ cell d i

  end_of_full :
      (d : Deque A)
      → IsValid d
      → size d ≡ capacity d
      → d.idx_begin ≡ 0
      → d.idx_end ≡ d.storage.size - 1
  unfolding size capacity
  end_of_full d v full e = grind arith

  same_vector : {f : ℕ → ℕ} (v w : Vector A) → Laws.IsValid v → Moved f v w → Laws.IsValid w
  same_vector v w good m = record {
    within = omega (arith, m.size, m.cap, good);
    block = omega (arith, m.block, m.cap, good);
    small = omega (arith, m.cap, good);
  }

  normalize_idx-Turned :
      (d : Deque A) → IsValid d → size d ≡ capacity d → Returns (Turned d) (normalize_idx d)
  unfolding normalize_idx turn
  normalize_idx-Turned d v full = elim (Bool-cases (d.idx_begin == 0)) [
    | inl zero_at ↦
        let at_zero : d.idx_begin ≡ 0 = ==→eq d.idx_begin 0 zero_at in
        rw zero_at (
          returns (record {
            vector = v.vector;
            size = refl;
            at_zero = at_zero;
            at_end = end_of_full d v full at_zero;
            cells = λ i lt. ap (λ j. get_or d.storage.mem j none) (ground arith);
          }))
    | inr turned ↦
        let pos : 0 < d.idx_begin = ground arith in
        let last : (d.storage.size + 2 ^ 32 - 1) % 2 ^ 32 ≡ d.storage.size - 1 = omega (arith, v) in
        rw (turned, last)
          (Returns-bind (invert_data_lem 0 (d.idx_begin - 1) d.storage (omega (arith, v))) λ v₁ m₁.
            Returns-bind
              (invert_data_lem d.idx_begin (d.storage.size - 1) v₁ (omega (arith, v, m₁.block)))
              λ v₂ m₂.
                Returns-bind
                  (invert_data_lem 0 (d.storage.size - 1) v₂ (omega (arith, v, m₁.block, m₂.block)))
                  λ v₃ m₃.
                    let m = after (after m₁ m₂ (λ j. refl)) m₃ (λ j. refl) in
                    returns (record {
                      vector = same_vector d.storage v₃ v.vector m;
                      size = m.size;
                      at_zero = refl;
                      at_end = refl;
                      cells = λ i lt.
                          m.cells i
                          ∙ ap (λ j. get_or d.storage.mem j none)
                              (turn-position d.storage.size d.idx_begin i pos (omega (arith, v))
                                (omega arith));
                    }))
  ]

  pub record Grown (d g : Deque A) : Type ℓ where
    pub valid : IsValid g
    pub room : g.idx_begin + size g + 1 < g.storage.size
    pub bound : g.storage.size ≤ d.storage.size + 2
    pub contents_same : contents g ≡ contents d

  slots :
      {d n : Deque A}
      → Turned d n
      → d.storage.size < 2 ^ 31
      → (capacity n + 2) % 2 ^ 32 ≡ (if d.storage.size == 0 then 2 else d.storage.size + 1)
  unfolding capacity
  slots {d} {n} t small = ground (arith, t.size)

  count :
      {d n : Deque A} (w : Vector A)
      → Turned d n
      → size d ≡ capacity d
      → size (record n { storage = w }) ≡ size d
  unfolding size capacity
  count {d} {n} w t full = ground (arith, t)

  size-full : (d : Deque A) → size d ≡ capacity d → size d ≡ d.storage.size - 1
  unfolding capacity
  size-full d full = ground arith

  grown :
      (d n : Deque A) (w : Vector A)
      → Turned d n
      → size d ≡ capacity d
      → Laws.IsValid w
      → w.size ≡ (if d.storage.size == 0 then 2 else d.storage.size + 1)
      → Laws.Keeps (d.storage.size - 1) n.storage.mem w.mem
      → Grown d (record n { storage = w })
  grown d n w t full good same keeps = record {
    valid = record { vector = good; begin_in = omega (arith, t); end_in = ground (arith, t) };
    room = ground (arith, count w t full, size-full d full, t);
    bound = ground arith;
    contents_same = rw (count w t full) (
        tabulate_ext _ (cell d) (size d) λ i lt.
          ap (λ j. get_or w.mem j none) (index i lt)
          ∙ keeps i (omega (arith, size-full d full))
          ∙ t.cells i (omega (arith, size-full d full)));
  }
    where
      index : (i : ℕ) → i < size d → position w.size n.idx_begin i ≡ i
      index i lt = ground (arith, size-full d full, t)

  -- Growing keeps the elements, and leaves room for one more.
  pub grow-Grown :
      (d : Deque A)
      → IsValid d
      → d.storage.size < 2 ^ 31
      → size d ≡ capacity d
      → Returns (Grown d) (grow d)
  unfolding grow
  grow-Grown d v small full = Returns-bind (normalize_idx-Turned d v full) λ n t.
      rw (slots t small) (
        Returns-bind
          (Laws.resize_lem scalar (if d.storage.size == 0 then 2 else d.storage.size + 1) n.storage
            t.vector (ground arith))
          λ w (good, same, keeps, new). returns (
            grown d n w t full good same (λ i lt. keeps i (ground (arith, t.size)) (ground arith))))
