-- ===== src/Kernel/Unlocking.antt =====
-- Who owns a mutex behind `unlock`.
use flitos.Base.{
  ℕ, ◌≡◌, refl, sym, ◌∙◌, ap, Bool, true, false, arith, ◌==◌, List, [], ◌∷◌, ◌++◌, if◌then◌else◌,
  contains, index, insert, index-le-total, Returns, Returns-bind, Returns-mono,
}
use flitos.Kernel.State.{Kernel, Mutex, new_mutex, minus_one, mutex_of, frames_of}
use flitos.Kernel.Scheduler.{set_state, resume}
use flitos.Kernel.Sync.{unlock, hand_over}
use flitos.Kernel.Invariant.Census.{count, mutex_count}
use flitos.Kernel.Invariant.Sound.{Sound, Quiet}
use flitos.Kernel.Invariant.Preempt.{set_preemption-off, set_preemption-on}
use flitos.Kernel.Invariant.Locks.{hand_over-After}
use flitos.Kernel.Invariant.Calls.{user-Sound}
use flitos.Kernel.Safety.{Inv}
use flitos.Kernel.Locking.{Puts, Puts-by, sets}

-- A thread that waits has an entry.
waits-contains :
    (r e id t : ℕ) (ts : List ℕ) (k : Kernel)
    → Sound r e k
    → (mutex_of k id).waiting ≡ t ∷ ts
    → contains t k.tcbs ≡ true
waits-contains r e id t ts k s q =
    s.present t
      (ground (arith, index-le-total (mutex_count t) new_mutex id k.mutexes refl, ap (count t) q))

-- In a state of the invariant, `unlock` of a mutex whose first waiter is `next`, whoever calls it,
-- makes `next` its owner, takes it out of the queue and puts it at the end of the ready list: the
-- mutex is never free in between, and the thread that unlocks goes on.
pub unlock-hands_over :
    (id next : ℕ) (rest : List ℕ) (k : Kernel)
    → Inv k
    → frames_of k k.running ≡ []
    → (mutex_of k id).waiting ≡ next ∷ rest
    → Returns
        (λ l.
          Puts id (record { owner = next; waiting = rest }) k l
          × (l.running ≡ k.running)
          × (l.ready_list ≡ k.ready_list ++ (next ∷ [])))
        (unlock id k)
unfolding unlock hand_over resume set_state
unlock-hands_over id next rest k inv user q =
    let m : Mutex = mutex_of k id in
    Returns-bind
      (set_preemption-off 1 0 k (user-Sound 1 k inv.sound user) (omega arith) (omega arith))
      λ j ((inner, before), quiet).
        let same : mutex_of k id ≡ mutex_of j id =
          ap (index new_mutex id) (sym quiet.mutexes_same) in
        let (done, kept) = hand_over-After 1 1 id m m.waiting j inner same refl in
        let there =
          waits-contains 1 1 id next rest j inner (ap (λ (x : Mutex). x.waiting) (sym same) ∙ q) in
        Returns-mono
          (set_preemption-on 1 0 (hand_over id m m.waiting j) done (omega arith) (omega arith))
          λ l ((outer, behind), still).
            let (puts, ready_now) = moved j l there quiet still in
            (puts, behind.running_same ∙ kept.running_same ∙ before.running_same, ready_now)
  where
    handed :
        (j : Kernel)
        → contains next j.tcbs ≡ true
        → ((hand_over id (mutex_of k id) (next ∷ rest) j).mutexes
            ≡ insert id (record { owner = next; waiting = rest }) j.mutexes)
          × ((hand_over id (mutex_of k id) (next ∷ rest) j).ready_list
              ≡ j.ready_list ++ (next ∷ []))
    handed j there = rw there (refl, refl)

    moved :
        (j l : Kernel)
        → contains next j.tcbs ≡ true
        → Quiet k j
        → Quiet (hand_over id (mutex_of k id) (mutex_of k id).waiting j) l
        → Puts id (record { owner = next; waiting = rest }) k l
          × (l.ready_list ≡ k.ready_list ++ (next ∷ []))
    moved j l there quiet still =
        let (set_now, ready_now) = handed j there in
        let as_list : (w : List ℕ)
            → w ≡ next ∷ rest
            → hand_over id (mutex_of k id) w j ≡ hand_over id (mutex_of k id) (next ∷ rest) j =
          λ w e. ap (λ v. hand_over id (mutex_of k id) v j) e in
        let here = as_list (mutex_of k id).waiting q in
        (
          Puts-by id (record { owner = next; waiting = rest }) k j l quiet
              (still.mutexes_same ∙ ap (λ (x : Kernel). x.mutexes) here ∙ set_now),
          still.ready_same
              ∙ ap (λ (x : Kernel). x.ready_list) here
              ∙ ready_now
              ∙ ap (λ w. w ++ (next ∷ [])) quiet.ready_same,
        )

-- In a state of the invariant, `unlock` of a mutex for which nobody waits frees it where the running
-- thread is its owner, and changes nothing of it otherwise.
pub unlock-frees :
    (id : ℕ) (k : Kernel)
    → Inv k
    → frames_of k k.running ≡ []
    → (mutex_of k id).waiting ≡ []
    → Returns
        (λ l.
          Puts id
            (record {
              owner =
                  if k.running == (mutex_of k id).owner then minus_one else (mutex_of k id).owner;
              waiting = [];
            })
            k
            l
          × (l.running ≡ k.running)
          × (l.ready_list ≡ k.ready_list))
        (unlock id k)
unfolding unlock hand_over
unlock-frees id k inv user q = simp q (
    Returns-mono
      (sets id (λ u. if u == m.owner then record { owner = minus_one; waiting = [] } else m) k
        (user-Sound 1 k inv.sound user) (λ u. queue (u == m.owner)))
      λ l (puts, stays, ready_same). (
        λ o. puts o ∙ ap (λ y. if id == o then y else mutex_of k o) (freed (k.running == m.owner)),
        stays,
        ready_same,
      ))
  where
    m : Mutex
    m = mutex_of k id

    queue :
        (b : Bool)
        → (if b then record { owner = minus_one; waiting = [] } else m).waiting ≡ m.waiting
    queue true = sym q
    queue false = refl

    freed :
        (b : Bool)
        → (if b then record { owner = minus_one; waiting = [] } else m)
          ≡ record { owner = if b then minus_one else m.owner; waiting = [] }
    freed true = refl
    freed false = ap (λ w. record { owner = m.owner; waiting = w }) q
