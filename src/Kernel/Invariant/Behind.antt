-- ===== src/Kernel/Invariant/Behind.antt =====
-- Calls behind other code of their thread.
use flitos.Base.{ℕ, suc, ◌≤◌, ◌<◌, true, arith, length, Returns, Returns-mono}
use flitos.Kernel.State.{Kernel}
use flitos.Kernel.Scheduler.{set_preemption}
use flitos.Kernel.Sync.{lock, unlock, wait}
use flitos.Kernel.Invariant.Sound.{Sound, After}
use flitos.Kernel.Invariant.Preempt.{set_preemption-on}
use flitos.Kernel.Invariant.Locks.{unlock-After}
use flitos.Kernel.Invariant.Block.{
  Moves, Single, Moves-of_After, Moves-after, lock-Moves, wait-Moves,
}

-- A call of `lock` behind other code of its thread.
pub lock_behind :
    (r id : ℕ) (k j : Kernel)
    → After r 0 k j
    → r ≤ 2
    → Single k
    → 0 < length k.ready_list
    → Returns (Moves k) (lock id j)
lock_behind r id k j (s, keeps) h single others =
    Returns-mono
      (lock-Moves r id j s h (λ t. omega (arith, keeps.census_same t, single t))
        (omega (arith, keeps)))
      λ l moves. Moves-after keeps moves

pub wait_behind :
    (r c m : ℕ) (k j : Kernel)
    → After r 0 k j
    → r ≤ 2
    → Single k
    → 0 < length k.ready_list
    → Returns (Moves k) (wait c m j)
wait_behind r c m k j (s, keeps) h single others =
    Returns-mono
      (wait-Moves r c m j s h (λ t. omega (arith, keeps.census_same t, single t))
        (omega (arith, keeps)))
      λ l moves. Moves-after keeps moves

pub settles :
    (r e : ℕ) (k : Kernel)
    → Sound r (suc e) k
    → r ≤ 4
    → e ≤ 8
    → Returns (After r e k) (set_preemption true k)
settles r e k s h small = Returns-mono (set_preemption-on r e k s h small) λ l done. done.0

-- `unlock` at the end of a call.
pub unlock-Moves : (m : ℕ) (k : Kernel) → Sound 1 0 k → Returns (Moves k) (unlock m k)
unlock-Moves m k s =
    Returns-mono (unlock-After 1 0 m k s (omega arith) (omega arith))
      λ l done. Moves-of_After 1 k l (omega arith) done
