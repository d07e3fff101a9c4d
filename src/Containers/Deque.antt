-- ===== src/Containers/Deque.antt =====
-- os_kernel/src/ecs_queue.h: a queue in a circular array, one slot of which stays free. The kernel's
-- queues hold thread ids and bytes, so elements are scalars.
pub mod Reverse
pub mod Valid
pub mod Grow
pub mod Refine
pub mod Fifo
use flitos.Base.{
  ℕ, zero, suc, ◌+◌, ◌-◌, ◌%◌, ◌^◌, Bool, Option, none, some, if◌then◌else◌, ltb, leb, ◌==◌,
  Outcome, ok, fault, hang, ◌>>=◌,
}
use flitos.Containers.Vector
use flitos.Containers.Vector.{Vector, scalar, empty_vector}

pub record Deque {ℓ} (A : Type ℓ) : Type ℓ where
  pub idx_begin : ℕ
  pub idx_end : ℕ
  pub storage : Vector A

module _ {ℓ} {A : Type ℓ} where
  pub empty_deque : Deque A
  empty_deque = record { idx_begin = 0; idx_end = 0; storage = empty_vector }

  pub capacity : Deque A → ℕ
  capacity d = if d.storage.size == 0 then 0 else d.storage.size - 1

  -- On 32 bits; the sum may pass 2^32 before the subtraction.
  unfoldable pub size : Deque A → ℕ
  size d =
      if leb d.idx_begin d.idx_end
      then d.idx_end - d.idx_begin
      else (d.idx_end + d.storage.size + 2 ^ 32 - d.idx_begin) % 2 ^ 32

  pub empty : Deque A → Bool
  empty d = 0 == size d

  -- `tmp = at(p1); at(p1) = at(p2); at(p2) = tmp;`
  pub exchange : ℕ → ℕ → Vector A → Outcome (Vector A)
  exchange p1 p2 v = do
    tmp ← Vector.at p1 v
    c ← Vector.at p2 v
    w ← Vector.assign p1 c v
    Vector.assign p2 tmp w

  -- `while(p1 < p2) { exchange; p1++; p2--; }`; each round brings the two nearer by two.
  pub invert_loop : ℕ → ℕ → ℕ → Vector A → Outcome (Vector A)
  invert_loop zero p1 p2 v = hang
  invert_loop (suc f) p1 p2 v =
      let rest = exchange p1 p2 v >>= invert_loop f (p1 + 1) (p2 - 1) in
      if ltb p1 p2 then rest else ok v

  pub invert_data : ℕ → ℕ → Vector A → Outcome (Vector A)
  invert_data p1 p2 v = invert_loop (p2 + 1) p1 p2 v

  -- The last index, `storage_.size() - 1`, is taken only where there are elements to move.
  pub normalize_idx : Deque A → Outcome (Deque A)
  normalize_idx d =
      let last = (d.storage.size + 2 ^ 32 - 1) % 2 ^ 32 in
      let rest : Outcome (Deque A) = do
        v ← invert_data 0 (d.idx_begin - 1) d.storage
        v ← invert_data d.idx_begin last v
        v ← invert_data 0 last v
        ok (record { idx_begin = 0; idx_end = last; storage = v })
      in if d.idx_begin == 0 then ok d else rest

  -- The growth of a full deque.
  pub grow : Deque A → Outcome (Deque A)
  grow d = do
    n ← normalize_idx d
    v ← Vector.resize scalar ((capacity n + 2) % 2 ^ 32) n.storage
    ok (record n { storage = v })

  -- `(i + 1) % storage_.size()`: the remainder by zero is undefined.
  pub wrap : ℕ → Vector A → Outcome ℕ
  wrap i v = if v.size == 0 then fault else ok ((i % 2 ^ 32) % v.size)

  pub push_back : A → Deque A → Outcome (Deque A)
  push_back x d = do
    g ← if size d == capacity d then grow d else ok d
    v ← Vector.assign g.idx_end (some x) g.storage
    e ← wrap (g.idx_end + 1) v
    ok (record g { idx_end = e; storage = v })

  pub pop_front : Deque A → Outcome (Deque A)
  pop_front d = do b ← wrap (d.idx_begin + 1) d.storage; ok (record d { idx_begin = b })

  -- What the cell of the oldest element holds.
  pub front : Deque A → Outcome (Option A)
  front d = Vector.at d.idx_begin d.storage

  unfoldable pub at : ℕ → Deque A → Outcome (Option A)
  at idx d = do i ← wrap (d.idx_begin + idx) d.storage; Vector.at i d.storage
