-- ===== src/Kernel/Destroyed.antt =====
-- `destroy` of a mutex and of a condition variable in which nobody waits.
use flitos.Base.{
  ℕ, ◌≡◌, refl, ap, arith, [], total, total-remove, Erasable, erase_key-Returns, Returns, returns,
  Returns-bind,
}
use flitos.Kernel.State.{Kernel, new_mutex, new_cond, minus_one, mutex_of, cond_of}
use flitos.Kernel.Sync.{destroy_mutex, destroy_cond}
use flitos.Kernel.Invariant.Census.{count, mutex_count, cond_count}
use flitos.Kernel.Invariant.Sound.{Sound, After}
use flitos.Kernel.Invariant.Locks.{settle}

pub destroy_mutex-After :
    (m : ℕ) (k : Kernel)
    → Sound 1 0 k
    → Erasable m k.mutexes × ((mutex_of k m).waiting ≡ [])
    → Returns (After 1 0 k) (destroy_mutex m k)
unfolding destroy_mutex
destroy_mutex-After m k s (between, nobody) =
    Returns-bind (erase_key-Returns m k.mutexes between) λ t now. returns (
      settle 1 0 k (record k { mutexes = t }) s refl refl refl refl refl
        λ u. omega (
          arith,
          ap (total (mutex_count u)) now,
          total-remove (mutex_count u) new_mutex m k.mutexes refl,
          ap (count u) nobody,
        ))

pub destroy_cond-After :
    (c : ℕ) (k : Kernel)
    → Sound 1 0 k
    → Erasable c k.conds × ((cond_of k c).waiting ≡ [])
    → Returns (After 1 0 k) (destroy_cond c k)
unfolding destroy_cond
destroy_cond-After c k s (between, nobody) =
    Returns-bind (erase_key-Returns c k.conds between) λ t now. returns (
      settle 1 0 k (record k { conds = t }) s refl refl refl refl refl
        λ u. omega (
          arith,
          ap (total (cond_count u)) now,
          total-remove (cond_count u) (new_cond minus_one) c k.conds refl,
          ap (count u) nobody,
        ))
