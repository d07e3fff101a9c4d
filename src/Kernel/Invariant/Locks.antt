-- ===== src/Kernel/Invariant/Locks.antt =====
-- Mutex calls that do not leave the thread: `resume`, `unlock`, `try_lock`.
use flitos.Base.{
  ℕ, suc, ◌+◌, ◌≤◌, ◌<◌, ◌≡◌, refl, sym, ◌∙◌, ap, subst, Bool, not, true, false, arith, ◌==◌, List,
  [], ◌∷◌, ◌++◌, if◌then◌else◌, contains, length, length-append, index, Returns, returns,
  Returns-bind, Returns-mono,
}
use flitos.Kernel.State.{
  Kernel, Mutex, ready, Context, new_tcb, tcb_of, frames_of, mutex_of, new_mutex, put_mutex,
  minus_one,
}
use flitos.Kernel.Scheduler.{set_state, resume}
use flitos.Kernel.Sync.{is_locked, try_lock, hand_over, unlock}
use flitos.Kernel.Invariant.Census.{census, hit, count, count-append, census-put_mutex}
use flitos.Kernel.Invariant.Sound.{Joins-same, Sound, After, Quiet, Keeps-trans}
use flitos.Kernel.Invariant.Preempt.{bracket, set_preemption-off, set_preemption-on}
use flitos.Kernel.Invariant.Switch.{preemption-set_state, contains-set_state}

-- Changes that leave the stacks, the counts and the places alone.
pub stay :
    (r e : ℕ) (k l : Kernel)
    → Sound r e k
    → l.running ≡ k.running
    → ((t : ℕ) → (tcb_of l t).preemption ≡ (tcb_of k t).preemption)
    → ((t : ℕ) → frames_of l t ≡ frames_of k t)
    → ((t : ℕ) → 0 < census t l → 0 < census t k)
    → ((t : ℕ) → contains t k.tcbs ≡ true → contains t l.tcbs ≡ true)
    → Sound r e l
stay r e k l s run pre frames fewer kept = record {
  low = λ t. omega (arith, s.low t, pre t);
  even = λ t. ground (arith, s.even t, pre t, frames t);
  shape = λ t. ground (arith, s.shape t, frames t);
  present = λ t some_place. kept t (s.present t (fewer t some_place));
}

-- A thread that has just been taken out of a queue of `k` goes to the ready list.
pub requeue :
    (r e t : ℕ) (k q : Kernel)
    → Sound r e k
    → q.running ≡ k.running
    → q.tcbs ≡ k.tcbs
    → q.contexts ≡ k.contexts
    → q.ready_list ≡ k.ready_list
    → q.io ≡ k.io
    → ((u : ℕ) → census u q + hit u t ≡ census u k)
    → After r e k (resume t q)
unfolding resume set_state
requeue r e t k q s run tcbs contexts ready_same io counts =
    let there : contains t q.tcbs ≡ true =
      subst (λ x. contains t x ≡ true) (sym tcbs) (s.present t (ground (arith, counts t))) in
    let l : Kernel = record (set_state t ready q) { ready_list = q.ready_list ++ (t ∷ []) } in
    let census_same : (u : ℕ) → census u l ≡ census u k =
      λ u. omega (arith, counts u, count-append u q.ready_list (t ∷ [])) in
    let after : (u : ℕ) → contains u k.tcbs ≡ true → contains u l.tcbs ≡ true =
      λ u h. ground (arith, contains-set_state t ready q u, ap (contains u) tcbs) in
    rw there (
      stay r e k l s run
          (λ u. preemption-set_state t ready q u ∙ ap (λ x. (index new_tcb u x).preemption) tcbs)
          (λ u. ap (λ (c : ℕ → Context). (c u).frames) contexts)
          (λ u h. omega (arith, census_same u)) (λ u h. after u h),
      record {
        census_same = census_same;
        kept = λ u h. after u h;
        room = omega (arith, length-append q.ready_list (t ∷ []), ap length ready_same);
        joins = (t ∷ [], ap (λ x. x ++ (t ∷ [])) ready_same);
        running_same = run;
        io_same = io;
      },
    )

-- `stay` with the places the same.
pub settle :
    (r e : ℕ) (k l : Kernel)
    → Sound r e k
    → l.running ≡ k.running
    → l.tcbs ≡ k.tcbs
    → l.contexts ≡ k.contexts
    → l.io ≡ k.io
    → l.ready_list ≡ k.ready_list
    → ((t : ℕ) → census t l ≡ census t k)
    → After r e k l
settle r e k l s run tcbs contexts io ready_same same =
    let kept : (t : ℕ) → contains t k.tcbs ≡ true → contains t l.tcbs ≡ true =
      λ t h. ap (contains t) tcbs ∙ h in
    (
      stay r e k l s run (λ t. ap (λ x. (index new_tcb t x).preemption) tcbs)
          (λ t. ap (λ (c : ℕ → Context). (c t).frames) contexts) (λ t h. omega (arith, same t))
          kept,
      record {
        census_same = same;
        kept = kept;
        room = omega (arith, ap length ready_same);
        joins = Joins-same _ _ ready_same;
        running_same = run;
        io_same = io;
      },
    )

-- A mutex whose queue stays as it is.
pub put_mutex-After :
    (r e id : ℕ) (m : Mutex) (k : Kernel)
    → Sound r e k
    → m.waiting ≡ (mutex_of k id).waiting
    → After r e k (put_mutex id m k)
put_mutex-After r e id m k s same =
    settle r e k (put_mutex id m k) s refl refl refl refl refl
      λ t. omega (arith, census-put_mutex t id m k, ap (count t) same)

pub hand_over-After :
    (r e id : ℕ) (m : Mutex) (w : List ℕ) (k : Kernel)
    → Sound r e k
    → m ≡ mutex_of k id
    → m.waiting ≡ w
    → After r e k (hand_over id m w k)
unfolding hand_over
hand_over-After r e id m [] k s eq q =
    put_mutex-After r e id _ k s
      (unlocked (k.running == m.owner) ∙ ap (λ (x : Mutex). x.waiting) eq)
  where
    unlocked : (b : Bool) → (if b then record m { owner = minus_one } else m).waiting ≡ m.waiting
    unlocked true = refl
    unlocked false = refl
hand_over-After r e id m (next ∷ rest) k s eq q =
    requeue r e next k (put_mutex id (record { owner = next; waiting = rest }) k) s refl refl refl
      refl refl
      λ u. omega (
        arith,
        census-put_mutex u id (record { owner = next; waiting = rest }) k,
        ap (λ (x : Mutex). count u x.waiting) eq,
        ap (count u) q,
      )

-- `unlock` moves the next owner, if there is one, from the queue to the ready list.
pub unlock-After :
    (r e id : ℕ) (k : Kernel) → Sound r e k → r ≤ 4 → e ≤ 7 → Returns (After r e k) (unlock id k)
unfolding unlock
unlock-After r e id k s h small =
    Returns-mono
      (bracket r e k (hand_over id (mutex_of k id) (mutex_of k id).waiting) s h small
        λ j inner quiet.
          hand_over-After r (suc e) id (mutex_of k id) (mutex_of k id).waiting j inner
            (ap (index new_mutex id) (sym quiet.mutexes_same)) refl)
      λ l done. done.0

-- `try_lock` changes at most the owner, and says whether it did.
pub try_lock-After :
    (r e id : ℕ) (k : Kernel)
    → Sound r e k
    → r ≤ 4
    → e ≤ 7
    → Returns (λ p. After r e k p.1 × (p.0 ≡ not (is_locked (mutex_of k id)))) (try_lock id k)
unfolding try_lock
try_lock-After r e id k s h small =
    let m : Mutex =
      if is_locked (mutex_of k id)
      then mutex_of k id
      else record (mutex_of k id) { owner = k.running } in
    Returns-bind (set_preemption-off r e k s h (omega arith)) λ j ((inner, before), quiet).
      let (done, kept) =
        put_mutex-After r (suc e) id m j inner (queue (is_locked (mutex_of k id)) j quiet) in
      Returns-bind (set_preemption-on r e (put_mutex id m j) done h (omega arith))
        λ l ((outer, behind), still).
          returns ((outer, Keeps-trans before (Keeps-trans kept behind)), refl)
  where
    queue :
        (b : Bool) (j : Kernel)
        → Quiet k j
        → (if b then mutex_of k id else record (mutex_of k id) { owner = k.running }).waiting
          ≡ (mutex_of j id).waiting
    queue true j quiet = ap (λ t. (index new_mutex id t).waiting) (sym quiet.mutexes_same)
    queue false j quiet = ap (λ t. (index new_mutex id t).waiting) (sym quiet.mutexes_same)
