-- ===== src/Kernel/Invariant/Create.antt =====
-- New threads, mutexes and condition variables.
use flitos.Base.{
  ℕ, ◌+◌, ◌%◌, ◌^◌, ◌≤◌, ◌≡◌, ◌≢◌, refl, sym, ◌∙◌, ap, ap₂, subst, true, false, arith, ◌==◌, [],
  ◌∷◌, ◌++◌, if◌then◌else◌, contains, index, insert, index-insert, contains-insert, Returns,
  returns, Returns-bind,
}
use flitos.Kernel.State.{
  Kernel, Tcb, new_tcb, ready, start, new_mutex, new_cond, minus_one, mutex_of, cond_of, tcb_of,
  frames_of,
}
use flitos.Kernel.Sync.{create_mutex, create_cond, create_thread}
use flitos.Kernel.Invariant.Census.{
  census, hit, count, count-append, census-put_mutex, census-put_cond,
}
use flitos.Kernel.Invariant.Turn.{TurnOf, stays}
use flitos.Kernel.Invariant.Sound.{Joins-trans, Sound, After}
use flitos.Kernel.Invariant.Preempt.{set_preemption-off, set_preemption-on}
use flitos.Kernel.Invariant.Locks.{settle}

abbrev pub next_id : ℕ → ℕ
next_id n = (n + 1) % 2 ^ 32

-- Nobody waits yet where the next mutex goes.
abbrev pub FreshMutex : Kernel → Type 0
FreshMutex k = (mutex_of k (next_id k.mutex_seq)).waiting ≡ []

abbrev pub FreshCond : Kernel → Type 0
FreshCond k = (cond_of k (next_id k.cond_seq)).waiting ≡ []

-- The next ids have not been used.
abbrev pub Fresh : Kernel → Type 0
Fresh k = (census (next_id k.thread_counter) k ≡ 0) × FreshMutex k × FreshCond k

pub create_mutex-After :
    (r e : ℕ) (k : Kernel) → Sound r e k → FreshMutex k → After r e k ((create_mutex k).1)
unfolding create_mutex
create_mutex-After r e k s fresh =
    let id : ℕ = next_id k.mutex_seq in
    settle r e k _ s refl refl refl refl refl
      λ t. omega (arith, census-put_mutex t id new_mutex k, ap (count t) fresh)

pub create_cond-After :
    (r e : ℕ) (k : Kernel) → Sound r e k → FreshCond k → After r e k ((create_cond k).1)
unfolding create_cond
create_cond-After r e k s fresh =
    let id : ℕ = next_id k.cond_seq in
    settle r e k _ s refl refl refl refl refl
      λ t. omega (arith, census-put_cond t id (new_cond id) k, ap (count t) fresh)

-- A thread that has just been given its id and its stack, and joins the ready list.
born :
    (r e id : ℕ) (k l : Kernel)
    → Sound r e k
    → census id k ≡ 0
    → l.running ≡ k.running
    → ((t : ℕ) → (tcb_of l t).preemption ≡ (if id == t then 1 else (tcb_of k t).preemption))
    → ((t : ℕ) → frames_of l t ≡ (if id == t then start ∷ [] else frames_of k t))
    → ((t : ℕ) → census t l ≡ census t k + hit t id)
    → ((t : ℕ) → contains t l.tcbs ≡ (if id == t then true else contains t k.tcbs))
    → Sound r e l
born r e id k l s unused run pre frames counts there =
    let other : k.running ≢ id = λ same. ground (arith, unused) in
    record {
      low = λ t. ground (arith, s.low t, pre t);
      even = λ t. ground (arith, s.even t, pre t, frames t);
      shape = λ t. ground (arith, s.shape t, frames t);
      present = λ t h. ground (arith, there t, s.present t, counts t);
    }

-- What `create` has done: the new thread is ready, and everybody else is where they were.
abbrev pub Created : ℕ → Kernel → Kernel → Type 0
Created r k l =
    Sound r 0 l
    × ((t : ℕ) → census t l ≡ census t k + hit t (next_id k.thread_counter))
    × ((t : ℕ) → contains t k.tcbs ≡ true → contains t l.tcbs ≡ true)
    × (l.io ≡ k.io)
    × TurnOf k l

-- The state that `create` reaches behind `setPreemption(false)`.
abbrev newborn : Kernel → Kernel
newborn j =
    let id = next_id j.thread_counter in
    let m = next_id j.mutex_seq in
    let c = next_id j.cond_seq in
    record j {
      thread_counter = id;
      mutex_seq = m;
      cond_seq = c;
      mutexes = insert m new_mutex j.mutexes;
      conds = insert c (new_cond c) j.conds;
      tcbs =
          insert id (record { preemption = 1; state = ready; mtx_for_join = m; cond_for_join = c })
            j.tcbs;
      contexts = λ u.
          if id == u
          then record { frames = start ∷ []; saved_mie = false; a0 = 0 }
          else j.contexts u;
      ready_list = j.ready_list ++ (id ∷ []);
    }

newborn-Sound :
    (r e : ℕ) (j : Kernel)
    → Sound r e j
    → Fresh j
    → Sound r e (newborn j)
      × ((t : ℕ) → census t (newborn j) ≡ census t j + hit t (next_id j.thread_counter))
newborn-Sound r e j s (unused, fresh_mutex, fresh_cond) =
    let id : ℕ = next_id j.thread_counter in
    let m : ℕ = next_id j.mutex_seq in
    let c : ℕ = next_id j.cond_seq in
    let b : Tcb = record { preemption = 1; state = ready; mtx_for_join = m; cond_for_join = c } in
    let counts : (t : ℕ) → census t (newborn j) ≡ census t j + hit t id = λ t. omega (
      arith,
      census-put_mutex t m new_mutex j,
      census-put_cond t c (new_cond c) j,
      ap (count t) fresh_mutex,
      ap (count t) fresh_cond,
      count-append t j.ready_list (id ∷ []),
    ) in
    (
      born r e id j (newborn j) s unused refl
          (λ t. ground (arith, index-insert new_tcb id b j.tcbs t)) (λ t. ground arith) counts
          (λ t. contains-insert id b j.tcbs t),
      counts,
    )

pub create_thread-Created :
    (r : ℕ) (k : Kernel)
    → Sound r 0 k
    → r ≤ 4
    → Fresh k
    → Returns (λ p. (p.0 ≡ next_id k.thread_counter) × Created r k p.1) (create_thread k)
unfolding create_thread create_mutex create_cond
create_thread-Created r k s h fresh =
    Returns-bind (set_preemption-off r 0 k s h (omega arith)) λ j ((inner, before), quiet).
      let id : next_id j.thread_counter ≡ next_id k.thread_counter =
        ap next_id quiet.counter_same in
      let fresh_there : Fresh j = (
        ap (λ i. census i j) id ∙ before.census_same (next_id k.thread_counter) ∙ fresh.0,
        subst (λ i. (index new_mutex (next_id i) j.mutexes).waiting ≡ []) (sym quiet.mutex_seq_same)
            (subst (λ x. (index new_mutex (next_id k.mutex_seq) x).waiting ≡ [])
              (sym quiet.mutexes_same) fresh.1),
        subst (λ i. (index (new_cond minus_one) (next_id i) j.conds).waiting ≡ [])
            (sym quiet.cond_seq_same)
            (subst (λ x. (index (new_cond minus_one) (next_id k.cond_seq) x).waiting ≡ [])
              (sym quiet.conds_same) fresh.2),
      ) in
      let (made, counts) = newborn-Sound r 1 j inner fresh_there in
      Returns-bind (set_preemption-on r 0 (newborn j) made h (omega arith))
        λ l ((outer, behind), still). returns (
          id,
          (
            outer,
            λ t.
                behind.census_same t
                ∙ counts t
                ∙ ap₂ (λ n i. n + hit t i) (before.census_same t) id,
            λ t there. behind.kept t (
                contains-insert (next_id j.thread_counter) _ j.tcbs t
                ∙ ground (arith, before.kept t there)),
            behind.io_same ∙ before.io_same,
            stays (behind.running_same ∙ before.running_same) (
                Joins-trans _ _ _ before.joins
                  (Joins-trans _ _ _ (next_id j.thread_counter ∷ [], refl) behind.joins)),
          ),
        )
