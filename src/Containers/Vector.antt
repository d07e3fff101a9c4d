-- ===== src/Containers/Vector.antt =====
-- os_kernel/src/ecs_vector.h: a growing array over raw memory. An element that an operation moves
-- is copied by value; what constructors and destructors do to a cell is the argument `Element`.
pub mod MemSize
pub mod Laws
pub mod Ends
use flitos.Base.{
  ℕ, zero, suc, ◌+◌, ◌-◌, ◌*◌, ◌%◌, ◌^◌, max, Bool, true, false, ◌&&◌, Option, none, some, List, [],
  ◌∷◌, ◌++◌, if◌then◌else◌, ltb, leb, ◌==◌, length, get_or, set, take, replicate, Outcome, ok,
  fault, hang, ◌>>=◌,
}

-- `while(ret < val) ret <<= 1;` on 32 bits. The shift leaves 0 after 2^31, and then never ends: a
-- run that is not over after 32 rounds is endless.
pub find_mem_loop : ℕ → ℕ → ℕ → Outcome ℕ
find_mem_loop zero ret val = hang
find_mem_loop (suc f) ret val =
    let rest = find_mem_loop f ((ret * 2) % 2 ^ 32) val in if ltb ret val then rest else ok ret

unfoldable pub find_mem_size : ℕ → Outcome ℕ
unfolding find_mem_loop
find_mem_size val = find_mem_loop 32 1 val

-- A cell of allocated memory: `none` is raw, with no object in it.
abbrev pub Memory {ℓ} : Type ℓ → Type ℓ
Memory A = List (Option A)

-- `new (&cell) T` and `cell.~T()`: for a scalar type both leave the cell as it is.
pub record Element {ℓ} (A : Type ℓ) : Type ℓ where
  pub construct : Option A → Option A
  pub destroy : Option A → Option A

abbrev pub scalar {ℓ} : {A : Type ℓ} → Element A
scalar = record { construct = λ c. c; destroy = λ c. c }

-- `size_`, `cap_` and the cells behind `mem_`; `nullptr` has no cells.
pub record Vector {ℓ} (A : Type ℓ) : Type ℓ where
  pub size : ℕ
  pub cap : ℕ
  pub mem : Memory A

module _ {ℓ} {A : Type ℓ} where
  -- `vector()`
  abbrev pub empty_vector : Vector A
  empty_vector = record { size = 0; cap = 0; mem = [] }

  abbrev pub is_null : Memory A → Bool
  is_null [] = true
  is_null (c ∷ cs) = false

  -- `memcpy` of `size_` cells into a fresh block of `c` cells: outside of either it is a fault.
  abbrev pub move_cells : ℕ → Memory A → ℕ → Outcome (Memory A)
  move_cells size old c =
      if is_null old
      then ok (replicate c none)
      else (if leb size c && leb size (length old)
          then ok (take size old ++ replicate (c - size) none)
          else fault)

  pub reallocate_memory : ℕ → Vector A → Outcome (Vector A)
  reallocate_memory desire v = do
    c ← find_mem_size desire
    m ← move_cells v.size v.mem (max 2 c)
    ok (record v { cap = max 2 c; mem = m })

  -- `for(i = ..; ..; i++) f(mem_[i])`, for `k` rounds from `i`
  pub each_cell : (Option A → Option A) → ℕ → ℕ → Memory A → Memory A
  each_cell f zero i mem = mem
  each_cell f (suc k) i mem = each_cell f k (i + 1) (set mem i (f (get_or mem i none)))

  -- One of the two loops has no rounds.
  pub resize : Element A → ℕ → Vector A → Outcome (Vector A)
  resize e n v = do
    w ← if ltb v.cap n then reallocate_memory n v else ok v
    let built = each_cell e.construct (n - w.size) w.size w.mem
    ok (record w { size = n; mem = each_cell e.destroy (w.size - n) n built })

  pub reserve : ℕ → Vector A → Outcome (Vector A)
  reserve n v = reallocate_memory n v

  -- `mem_[i]` to read: raw cells are read too, but nothing outside the memory.
  pub at : ℕ → Vector A → Outcome (Option A)
  at i v = if ltb i (length v.mem) then ok (get_or v.mem i none) else fault

  -- `mem_[i] = c`
  pub assign : ℕ → Option A → Vector A → Outcome (Vector A)
  assign i c v = if ltb i (length v.mem) then ok (record v { mem = set v.mem i c }) else fault

  pub push_back : A → Vector A → Outcome (Vector A)
  push_back x v = do
    w ←
        if ltb v.cap ((v.size + 1) % 2 ^ 32)
        then reallocate_memory ((v.cap * 2) % 2 ^ 32) v
        else ok v
    u ← assign w.size (some x) w
    ok (record u { size = (u.size + 1) % 2 ^ 32 })

  pub pop_back : Element A → Vector A → Outcome (Vector A)
  pop_back e v = resize e (if ltb 0 v.size then v.size - 1 else 0) v

  pub clear : Element A → Vector A → Outcome (Vector A)
  clear e v = resize e 0 v

  pub back : Vector A → Outcome (Option A)
  back v = at ((v.size + 2 ^ 32 - 1) % 2 ^ 32) v

  -- `for(i = 0; i < rhs.size(); i++) at(i) = rhs.at(i);`, for `k` rounds from `i`
  pub copy_loop : ℕ → ℕ → Vector A → Vector A → Outcome (Vector A)
  copy_loop zero i rhs v = ok v
  copy_loop (suc k) i rhs v = do c ← at i rhs; w ← assign i c v; copy_loop k (i + 1) rhs w

  -- `operator = (const vector& rhs)`; the copy constructor is this one on `vector()`.
  pub copy_assign : Element A → Vector A → Vector A → Outcome (Vector A)
  copy_assign e rhs v = do w ← resize e rhs.size v; copy_loop rhs.size 0 rhs w

  -- `swap`, also the move constructor and the move assignment: both vectors after it
  pub swap : Vector A → Vector A → Vector A × Vector A
  swap v rhs = (
    record { size = rhs.size; cap = rhs.cap; mem = rhs.mem },
    record { size = v.size; cap = v.cap; mem = v.mem },
  )
