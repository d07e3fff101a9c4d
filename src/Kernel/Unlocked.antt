-- ===== src/Kernel/Unlocked.antt =====
-- `unlock` leaves every stack and every condition variable alone.
use flitos.Base.{
  ℕ, ◌≤◌, ◌≡◌, refl, sym, ◌∙◌, ap, arith, List, [], ◌∷◌, contains, inl, inr, Bool-cases, Returns,
  Returns-mono,
}
use flitos.Kernel.State.{Kernel, Mutex, mutex_of}
use flitos.Kernel.Scheduler.{resume, set_state}
use flitos.Kernel.Sync.{hand_over, unlock}
use flitos.Kernel.Invariant.Sound.{Sound, After}
use flitos.Kernel.Invariant.Preempt.{bracket}
use flitos.Kernel.Invariant.Locks.{hand_over-After}

hand_over-Same :
    (id : ℕ) (m : Mutex) (w : List ℕ) (k : Kernel)
    → ((hand_over id m w k).contexts ≡ k.contexts) × ((hand_over id m w k).conds ≡ k.conds)
unfolding hand_over resume set_state
hand_over-Same id m [] k = (refl, refl)
hand_over-Same id m (t ∷ ts) k = elim (Bool-cases (contains t k.tcbs)) [
  | inl there ↦ rw there (refl, refl)
  | inr absent ↦ rw absent (refl, refl)
]

pub unlock-Same :
    (r id : ℕ) (k : Kernel)
    → Sound r 0 k
    → r ≤ 4
    → Returns (λ l. After r 0 k l × (l.contexts ≡ k.contexts) × (l.conds ≡ k.conds)) (unlock id k)
unfolding unlock
unlock-Same r id k s h =
    let m : Mutex = mutex_of k id in
    Returns-mono
      (bracket r 0 k (hand_over id m m.waiting) s h (omega arith) λ j inner quiet.
        hand_over-After r 1 id m m.waiting j inner
          (ap (λ t. mutex_of (record k { mutexes = t }) id) (sym quiet.mutexes_same)) refl)
      λ l (after, (j, quiet, still)).
        let (contexts, conds) = hand_over-Same id m m.waiting j in
        (
          after,
          still.contexts_same ∙ contexts ∙ quiet.contexts_same,
          still.conds_same ∙ conds ∙ quiet.conds_same,
        )
