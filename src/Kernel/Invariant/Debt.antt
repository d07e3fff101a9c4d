-- ===== src/Kernel/Invariant/Debt.antt =====
-- The calls of `setPreemption(true)` that are still to come, and the shape of the stacks.
use flitos.Base.{ℕ, ◌+◌, ◌-◌, ◌≤◌, ◌<◌, List, [], ◌∷◌, arith}
use flitos.Kernel.State.{
  Frame, switched, lock_rest, handler, start, wait_rest, join_check, join_loop, sleep_loop, served,
  write_rest, read_loop, malloc_rest, free_rest,
}

abbrev pub debt : Frame → ℕ
debt switched = 1
debt lock_rest = 1
debt (wait_rest m) = 1
debt handler = 0
debt start = 0
debt (join_check t m c) = 0
debt (join_loop t m c) = 0
debt (sleep_loop w) = 0
debt (served r on) = 0
debt (write_rest p b n) = 0
debt (read_loop p b n) = 0
debt (malloc_rest m r) = 0
debt (free_rest m) = 0

abbrev pub debts : List Frame → ℕ
debts [] = 0
debts (f ∷ fs) = debt f + debts fs

-- System calls stand at the bottom; loops call waits and locks, and those call the switch.
abbrev pub rank : Frame → ℕ
rank switched = 3
rank handler = 3
rank start = 3
rank lock_rest = 2
rank (wait_rest m) = 2
rank (join_check t m c) = 1
rank (join_loop t m c) = 1
rank (sleep_loop w) = 1
rank (write_rest p b n) = 1
rank (read_loop p b n) = 1
rank (malloc_rest m r) = 1
rank (free_rest m) = 1
rank (served r on) = 0

-- Ranks rise towards the top, and stay below `b`.
abbrev pub Ordered : ℕ → List Frame → Type 0
Ordered b [] = Unit {0}
Ordered b (f ∷ fs) = (rank f < b) × Ordered (rank f) fs

pub debts-le : (b : ℕ) (fs : List Frame) → Ordered b fs → debts fs ≤ b - 2
debts-le b [] o = omega arith
debts-le b (switched ∷ fs) o = omega (arith, debts-le 3 fs o.1)
debts-le b (handler ∷ fs) o = omega (arith, debts-le 3 fs o.1)
debts-le b (start ∷ fs) o = omega (arith, debts-le 3 fs o.1)
debts-le b (lock_rest ∷ fs) o = omega (arith, debts-le 2 fs o.1)
debts-le b (wait_rest m ∷ fs) o = omega (arith, debts-le 2 fs o.1)
debts-le b (join_check t m c ∷ fs) o = omega (arith, debts-le 1 fs o.1)
debts-le b (join_loop t m c ∷ fs) o = omega (arith, debts-le 1 fs o.1)
debts-le b (sleep_loop w ∷ fs) o = omega (arith, debts-le 1 fs o.1)
debts-le b (served r on ∷ fs) o = omega (arith, debts-le 0 fs o.1)
debts-le b (write_rest p c n ∷ fs) o = omega (arith, debts-le 1 fs o.1)
debts-le b (read_loop p c n ∷ fs) o = omega (arith, debts-le 1 fs o.1)
debts-le b (malloc_rest m r ∷ fs) o = omega (arith, debts-le 1 fs o.1)
debts-le b (free_rest m ∷ fs) o = omega (arith, debts-le 1 fs o.1)

pub Ordered-mono : (b c : ℕ) (fs : List Frame) → b ≤ c → Ordered b fs → Ordered c fs
Ordered-mono b c [] h o = tt
Ordered-mono b c (f ∷ fs) h o = (omega arith, o.1)
