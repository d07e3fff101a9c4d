-- ===== src/Containers/Deque/Refine.antt =====
-- A valid deque behaves as the list of the cells that it holds, in order.
use mathlib.Core.Path.{ap₂}
use flitos.Base.{
  ℕ, suc, ◌+◌, ◌-◌, ◌^◌, ◌≤◌, ◌<◌, ◌≡◌, ◌≢◌, refl, ap, sym, ◌∙◌, inl, inr, none, some, false, [],
  ◌∷◌, ◌++◌, arith, ◌==◌, if◌then◌else◌, Bool-cases, ==→eq, eq→==, ne→==, get_or, set, get_or-set,
  length-set, ok, Returns, returns, Returns-bind, Returns-mono, ◌>>=◌,
}
use flitos.Containers.Vector
use flitos.Containers.Vector.{Vector, Memory, scalar, each_cell}
use flitos.Containers.Vector.Laws
use flitos.Containers.Deque.Grow.{grow-Grown}
use flitos.Containers.Deque.Valid.{
  IsValid, position, cell, contents, tabulate-suc, tabulate_ext, get_or-tabulate, size-le, wrap-ok,
}
use flitos.Containers.Deque.{Deque, capacity, size, wrap, push_back, pop_front, front, at}

module _ {ℓ} {A : Type ℓ} where
  -- The deque after its next free slot has been filled.
  abbrev filled : A → Deque A → Deque A
  filled x d = record d {
    idx_end = position d.storage.size 0 (d.idx_end + 1);
    storage = record (d.storage) { mem = set d.storage.mem d.idx_end (some x) };
  }

  -- The element `i` of the deque does not stand in the free slot, which is the place for the next.
  free_slot :
      (d : Deque A)
      → IsValid d
      → (position d.storage.size d.idx_begin (size d) ≡ d.idx_end)
        × ((i : ℕ) → i < size d → d.idx_end ≢ position d.storage.size d.idx_begin i)
  unfolding size
  free_slot d v = (ground arith, λ i lt. ground arith)

  size-filled :
      (x : A) (d : Deque A)
      → IsValid d
      → size d + 1 < d.storage.size
      → size (filled x d) ≡ suc (size d)
  unfolding size
  size-filled x d v room = ground arith

  abbrev Pushed : A → Deque A → Deque A → Type ℓ
  Pushed x d e =
      IsValid e × (contents e ≡ contents d ++ (some x ∷ [])) × (e.storage.size ≡ d.storage.size)

  filled-Pushed :
      (x : A) (d : Deque A) → IsValid d → size d + 1 < d.storage.size → Pushed x d (filled x d)
  filled-Pushed x d v room = (
    record {
      vector = record {
        within = v.vector.within;
        block = omega (arith, v, length-set d.storage.mem d.idx_end (some x));
        small = v.vector.small;
      };
      begin_in = v.begin_in;
      end_in = ground (arith, v);
    },
    rw (size-filled x d v room) (
        tabulate-suc (cell (filled x d)) (size d)
        ∙ ap₂ (λ l c. l ++ (c ∷ []))
            (tabulate_ext _ (cell d) (size d) λ i lt.
              read (position d.storage.size d.idx_begin i)
              ∙ ap (λ b. if b then some x else cell d i) (ne→== _ _ ((free_slot d v).1 i lt)))
            (read (position d.storage.size d.idx_begin (size d))
              ∙ ap (λ b. if b then some x else cell d (size d))
                  (eq→== _ _ (sym (free_slot d v).0)))),
    refl,
  )
    where
      read :
          (j : ℕ)
          → get_or (set d.storage.mem d.idx_end (some x)) j none
            ≡ (if d.idx_end == j then some x else get_or d.storage.mem j none)
      read j = get_or-set d.storage.mem d.idx_end (some x) j none (omega (arith, v))

  add_filled :
      (x : A) (d : Deque A)
      → IsValid d
      → size d + 1 < d.storage.size
      → Returns (Pushed x d) (do
        v ← Vector.assign d.idx_end (some x) d.storage
        e ← wrap (d.idx_end + 1) v
        ok (record d { idx_end = e; storage = v }))
  add_filled x d v room =
      let next = filled-Pushed x d v room in
      rw
        (
          Laws.assign-ok d.idx_end (some x) d.storage (omega (arith, v)),
          wrap-ok (d.idx_end + 1) ((filled x d).storage) next.0.vector (omega (arith, v)),
        )
        (returns next)

  size-of_none : (d : Deque A) → IsValid d → d.storage.size ≡ 0 → size d ≡ 0
  unfolding size
  size-of_none d v e = ground arith

  room_of : (d : Deque A) → IsValid d → (size d == capacity d) ≡ false → size d + 1 < d.storage.size
  unfolding capacity
  room_of d v space = ground (arith, size-le d v, size-of_none d v)

  -- On a valid deque with fewer than 2^31 slots `push_back` returns a valid one, in which the element
  -- stands behind the others, and whose storage has at most two slots more.
  pub push_back-contents :
      (x : A) (d : Deque A)
      → IsValid d
      → d.storage.size < 2 ^ 31
      → Returns
          (λ e.
            IsValid e
            × (contents e ≡ contents d ++ (some x ∷ []))
            × (e.storage.size ≤ d.storage.size + 2))
          (push_back x d)
  unfolding push_back
  push_back-contents x d v small = elim (Bool-cases (size d == capacity d)) [
    | inl full ↦ rw full (
        Returns-bind (grow-Grown d v small (==→eq (size d) (capacity d) full)) λ g grown.
          Returns-mono (add_filled x g grown.valid (omega (arith, grown.room)))
            λ e (valid, pushed, same). (
              valid,
              pushed ∙ ap (λ l. l ++ (some x ∷ [])) grown.contents_same,
              omega (arith, grown.bound),
            ))
    | inr space ↦ rw space (
        Returns-mono (add_filled x d v (room_of d v space))
          λ e (valid, pushed, same). (valid, pushed, omega arith))
  ]

  size-popped :
      (d : Deque A) (n : ℕ)
      → IsValid d
      → size d ≡ suc n
      → size (record d { idx_begin = position d.storage.size 0 (d.idx_begin + 1) }) ≡ n
  unfolding size
  size-popped d n v e = ground (arith, v)

  -- On a valid deque that is not empty `pop_front` returns a valid one without the oldest cell, which
  -- is the one that `front` reads, and with the same number of slots.
  pub pop_front-contents :
      (d : Deque A)
      → IsValid d
      → 0 < size d
      → Returns
          (λ e.
            IsValid e
            × (front d ≡ ok (cell d 0))
            × (contents d ≡ cell d 0 ∷ contents e)
            × (e.storage.size ≡ d.storage.size))
          (pop_front d)
  unfolding pop_front front
  pop_front-contents d v some_left =
      let n : ℕ = size d - 1 in
      let e : size d ≡ suc n = omega arith in
      let popped : Deque A = record d { idx_begin = position d.storage.size 0 (d.idx_begin + 1) } in
      rw
        (
          wrap-ok (d.idx_begin + 1) d.storage v.vector (omega (arith, v, size-le d v)),
          Laws.at-ok d.idx_begin d.storage (omega (arith, v, size-le d v)),
        )
        (returns (
          record {
            vector = v.vector;
            begin_in = ground (arith, v, size-le d v);
            end_in = v.end_in;
          },
          ap (λ j. ok (get_or d.storage.mem j none)) (ground (arith, size-le d v)),
          rw (e, size-popped d n v e)
              (ap (◌∷◌ (cell d 0)) (
                tabulate_ext _ (cell popped) n
                  λ i lt. ap (λ j. get_or d.storage.mem j none) (ground (arith, v, size-le d v)))),
          refl,
        ))

  -- On a valid deque, below its size, `at` reads the cell that stands `idx` places behind the oldest.
  pub at-contents :
      (idx : ℕ) (d : Deque A)
      → IsValid d
      → idx < size d
      → at idx d ≡ ok (get_or (contents d) idx none)
  unfolding at
  at-contents idx d v inside =
      rw
        (
          wrap-ok (d.idx_begin + idx) d.storage v.vector (omega (arith, v, size-le d v)),
          Laws.at-ok (position d.storage.size 0 (d.idx_begin + idx)) d.storage
              (ground (arith, v, size-le d v)),
          get_or-tabulate (cell d) (size d) idx none inside,
        )
        (ap (λ j. ok (get_or d.storage.mem j none)) (ground arith))
