-- ===== src/Kernel/Invariant/Block.antt =====
-- Calls that may suspend their thread: `lock` and `wait`.
use flitos.Base.{
  ℕ, suc, ◌+◌, ◌≤◌, ◌<◌, ◌≡◌, refl, sym, ◌∙◌, ap, true, arith, ◌==◌, [], ◌∷◌, ◌++◌, contains,
  length, index, inl, inr, Bool-cases, Returns, Returns-bind, Returns-mono,
}
use flitos.Kernel.State.{
  Kernel, waiting, Mutex, Cond, new_mutex, Frame, lock_rest, wait_rest, mutex_of, cond_of,
  put_mutex, put_cond, push_frame,
}
use flitos.Kernel.Scheduler.{set_preemption, suspend}
use flitos.Kernel.Sync.{is_locked, block_on, lock, wait}
use flitos.Kernel.Invariant.Debt.{debt, rank}
use flitos.Kernel.Invariant.Census.{
  census, hit, count, count-append, census-put_mutex, census-put_cond,
}
use flitos.Kernel.Invariant.Turn.{TurnOf, stays, Turn-behind, Gone-Turn}
use flitos.Kernel.Invariant.Sound.{Joins-same, Sound, Keeps, After, Keeps-trans}
use flitos.Kernel.Invariant.Preempt.{set_preemption-off, set_preemption-on}
use flitos.Kernel.Invariant.Switch.{parked, Sound-mono, push_frame-After}
use flitos.Kernel.Invariant.Leave.{suspend-Switched}
use flitos.Kernel.Invariant.Locks.{stay, put_mutex-After, unlock-After}

-- What a call does that may end in another thread: everybody is still somewhere, once.
pub record Moves (k l : Kernel) : Type 0 where
  pub sound : Sound 4 0 l
  pub census_same : (t : ℕ) → census t l ≡ census t k
  pub kept : (t : ℕ) → contains t k.tcbs ≡ true → contains t l.tcbs ≡ true
  pub io_same : l.io ≡ k.io
  pub turn : TurnOf k l

-- No thread is in two places.
abbrev pub Single : Kernel → Type 0
Single k = (t : ℕ) → census t k ≤ 1

pub Moves-of_After : (r : ℕ) (k l : Kernel) → r ≤ 4 → After r 0 k l → Moves k l
Moves-of_After r k l h (s, keeps) = record {
  sound = Sound-mono r 4 0 l h s;
  census_same = keeps.census_same;
  kept = keeps.kept;
  io_same = keeps.io_same;
  turn = stays keeps.running_same keeps.joins;
}

pub Moves-after : {k j l : Kernel} → Keeps k j → Moves j l → Moves k l
Moves-after a m = record {
  sound = m.sound;
  census_same = λ t. m.census_same t ∙ a.census_same t;
  kept = λ t h. m.kept t (a.kept t h);
  io_same = m.io_same ∙ a.io_same;
  turn = Turn-behind _ _ _ _ _ _ a.running_same a.joins m.turn;
}

pub alone_of : (k : Kernel) → census k.running k ≤ 1 → count k.running k.ready_list ≡ 0
alone_of k h = ground arith

-- The running thread has been put into a queue, and leaves with a frame for the rest of its call.
pub suspend_in :
    (r : ℕ) (f : Frame) (k q : Kernel)
    → Sound r (debt f + 0) q
    → r ≤ rank f
    → rank f ≡ 2
    → q.running ≡ k.running
    → ((t : ℕ) → census t q ≡ census t k + hit t k.running)
    → count q.running q.ready_list ≡ 0
    → 0 < length q.ready_list
    → ((t : ℕ) → contains t k.tcbs ≡ true → contains t q.tcbs ≡ true)
    → q.io ≡ k.io
    → q.ready_list ≡ k.ready_list
    → Returns (Moves k) (suspend (push_frame f q))
unfolding parked
suspend_in r f k q s h two run counts alone others kept io ready_same =
    let (inner, keeps) = push_frame-After r 0 f q s h in
    Returns-mono (suspend-Switched (suc (rank f)) (push_frame f q) inner (omega arith) alone others)
      λ l (outer, places, more, gone). record {
        sound = outer;
        census_same = λ t. ground (arith, places t, counts t, ap (hit t) run);
        kept = λ t there. more t (kept t there);
        io_same = gone.data_kept ∙ io;
        turn =
            Turn-behind _ _ _ _ _ _ run (Joins-same _ _ ready_same)
              (Gone-Turn waiting (push_frame f q) l gone alone);
      }

block_on-Moves :
    (r id : ℕ) (m : Mutex) (k : Kernel)
    → Sound r 1 k
    → r ≤ 2
    → Single k
    → 0 < length k.ready_list
    → m ≡ mutex_of k id
    → Returns (Moves k) (block_on id m k)
unfolding block_on
block_on-Moves r id m k s h single others eq =
    let q : Kernel = put_mutex id (record m { waiting = m.waiting ++ (k.running ∷ []) }) k in
    let counts : (t : ℕ) → census t q ≡ census t k + hit t k.running = λ t. omega (
      arith,
      census-put_mutex t id (record m { waiting = m.waiting ++ (k.running ∷ []) }) k,
      ap (λ (x : Mutex). count t x.waiting) eq,
      count-append t m.waiting (k.running ∷ []),
    ) in
    suspend_in r lock_rest k q
      (stay r 1 k q s refl (λ t. refl) (λ t. refl) (λ t some_place. ground (arith, counts t))
        (λ t there. there))
      h refl refl counts (alone_of k (single k.running)) others (λ t there. there) refl refl

free :
    (r id : ℕ) (m : Mutex) (k j : Kernel)
    → Sound r 1 j
    → Keeps k j
    → r ≤ 2
    → m.waiting ≡ (mutex_of j id).waiting
    → Returns (Moves k) (set_preemption true (put_mutex id m j))
free r id m k j s before h same =
    let (inner, kept) = put_mutex-After r 1 id m j s same in
    Returns-mono (set_preemption-on r 0 (put_mutex id m j) inner (omega arith) (omega arith))
      λ l ((outer, behind), still).
        Moves-of_After r k l (omega arith) (outer, Keeps-trans before (Keeps-trans kept behind))

-- `lock`, whether it takes the mutex, blocks or is called twice.
pub lock-Moves :
    (r id : ℕ) (k : Kernel)
    → Sound r 0 k
    → r ≤ 2
    → Single k
    → 0 < length k.ready_list
    → Returns (Moves k) (lock id k)
unfolding lock
lock-Moves r id k s h single others =
    Returns-bind (set_preemption-off r 0 k s (omega arith) (omega arith))
      λ j ((inner, before), quiet).
        let m : Mutex = mutex_of k id in
        let same : m ≡ mutex_of j id = ap (index new_mutex id) (sym quiet.mutexes_same) in
        let stays : (x : Mutex)
            → x.waiting ≡ m.waiting
            → Returns (Moves k) (set_preemption true (put_mutex id x j)) =
          λ x q. free r id x k j inner before h (q ∙ ap (λ (y : Mutex). y.waiting) same) in
        elim (Bool-cases (is_locked m)) [
          | inl held ↦ elim (Bool-cases (k.running == m.owner)) [
            | inl own ↦ rw (held, own) (stays m refl)
            | inr other ↦
                rw (held, other)
                  (Returns-mono
                    (block_on-Moves r id m j inner h
                      (λ t. omega (arith, before.census_same t, single t)) (omega (arith, before))
                      same)
                    λ l moves. Moves-after before moves)
          ]
          | inr unheld ↦ rw unheld (stays (record m { owner = k.running }) refl)
        ]

-- `wait` gives the mutex up and suspends its thread.
pub wait-Moves :
    (r c m : ℕ) (k : Kernel)
    → Sound r 0 k
    → r ≤ 2
    → Single k
    → 0 < length k.ready_list
    → Returns (Moves k) (wait c m k)
unfolding wait
wait-Moves r c m k s h single others =
    Returns-bind (set_preemption-off r 0 k s (omega arith) (omega arith))
      λ i ((first, before), quiet).
        Returns-bind (unlock-After r 1 m i first (omega arith) (omega arith)) λ j (inner, unlocked).
          let x : Cond = record (cond_of j c) {
            waiting = (cond_of j c).waiting ++ (j.running ∷ []);
          } in
          let q : Kernel = put_cond c x j in
          let to_j = Keeps-trans before unlocked in
          let counts : (t : ℕ) → census t q ≡ census t j + hit t j.running = λ t. omega (
            arith,
            census-put_cond t c x j,
            count-append t (cond_of j c).waiting (j.running ∷ []),
          ) in
          Returns-mono
            (suspend_in r (wait_rest m) j q
              (stay r 1 j q inner refl (λ t. refl) (λ t. refl)
                (λ t some_place. ground (arith, counts t)) (λ t there. there))
              h refl refl counts
              (alone_of j (omega (arith, to_j.census_same j.running, single j.running)))
              (omega (arith, to_j.room)) (λ t there. there) refl refl)
            λ l moves. Moves-after to_j moves
