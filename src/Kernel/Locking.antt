-- ===== src/Kernel/Locking.antt =====
-- Who owns a mutex: `lock` and `try_lock`.
use flitos.Base.{
  ℕ, ◌+◌, ◌≡◌, ◌≢◌, refl, sym, ◌∙◌, ap, ap₂, subst, Bool, true, false, not, arith, ◌==◌, List, [],
  ◌∷◌, ◌++◌, append-nil, if◌then◌else◌, length, index, insert, index-insert, Outcome, ok, fault,
  hang, ◌>>=◌, Returns, ne→==, Bool-cases, inl, inr, returns, Returns-bind, Returns-mono,
}
use flitos.Kernel.State.{
  Kernel, Context, Mutex, new_mutex, Frame, switched, lock_rest, mutex_of, frames_of, put_mutex,
  push_frame,
}
use flitos.Kernel.Scheduler.{set_preemption}
use flitos.Kernel.Sync.{is_locked, lock, block_on, try_lock}
use flitos.Kernel.Invariant.Census.{census, hit, count, count-append, census-put_mutex}
use flitos.Kernel.Invariant.Sound.{Sound, Quiet}
use flitos.Kernel.Invariant.Preempt.{set_preemption-off, set_preemption-on}
use flitos.Kernel.Invariant.Switch.{push_frame-After}
use flitos.Kernel.Invariant.Leave.{suspend-Switched}
use flitos.Kernel.Invariant.Locks.{stay, put_mutex-After}
use flitos.Kernel.Invariant.Block.{alone_of}
use flitos.Kernel.Invariant.Calls.{user-Sound}
use flitos.Kernel.Safety.{Inv}
use flitos.Kernel.Turns.{cons-head, cons-tail}

mutex_of-put_mutex :
    (id : ℕ) (m : Mutex) (k : Kernel) (o : ℕ)
    → mutex_of (put_mutex id m k) o ≡ (if id == o then m else mutex_of k o)
mutex_of-put_mutex id m k o = index-insert new_mutex id m k.mutexes o

-- The mutex `id` is `m` now, and the others are what they were.
abbrev pub Puts : ℕ → Mutex → Kernel → Kernel → Type 0
Puts id m k l = (o : ℕ) → mutex_of l o ≡ (if id == o then m else mutex_of k o)

pub Puts-by :
    (id : ℕ) (m : Mutex) (k j l : Kernel)
    → Quiet k j
    → l.mutexes ≡ insert id m j.mutexes
    → Puts id m k l
Puts-by id m k j l quiet e o =
    ap (index new_mutex o) (e ∙ ap (insert id m) quiet.mutexes_same) ∙ mutex_of-put_mutex id m k o

-- Code that sets one mutex between two calls of `setPreemption`.
pub sets :
    (id : ℕ) (x : ℕ → Mutex) (k : Kernel)
    → Sound 1 0 k
    → ((u : ℕ) → (x u).waiting ≡ (mutex_of k id).waiting)
    → Returns
        (λ l. Puts id (x k.running) k l × (l.running ≡ k.running) × (l.ready_list ≡ k.ready_list))
        (set_preemption false k >>= λ j. set_preemption true (put_mutex id (x j.running) j))
sets id x k s same =
    Returns-bind (set_preemption-off 1 0 k s (omega arith) (omega arith))
      λ j ((inner, before), quiet).
        let (done, kept) =
          put_mutex-After 1 1 id (x j.running) j inner
            (same j.running ∙ ap (λ t. (index new_mutex id t).waiting) (sym quiet.mutexes_same)) in
        Returns-mono
          (set_preemption-on 1 0 (put_mutex id (x j.running) j) done (omega arith) (omega arith))
          λ l ((outer, behind), still). (
            subst (λ u. Puts id (x u) k l) before.running_same
                (Puts-by id (x j.running) k j l quiet still.mutexes_same),
            behind.running_same ∙ before.running_same,
            still.ready_same ∙ quiet.ready_same,
          )

pub top_frame :
    (f : Frame) (q : Kernel) → frames_of (push_frame f q) q.running ≡ f ∷ frames_of q q.running
top_frame f q = ground arith

Returns-pair :
    {P : Kernel → Type 0} {m : Outcome Kernel} (b : Bool)
    → Returns P m
    → Returns (λ (p : Bool × Kernel). (p.0 ≡ b) × P p.1) (m >>= λ l. ok (b, l))
Returns-pair b done = Returns-bind done λ l p. returns (refl, p)

regroup :
    {A B C : Type 0} {P : C → Type 0} (m : Outcome A) (f : A → Outcome B) (g : B → Outcome C)
    → Returns P (m >>= f >>= g)
    → Returns P (m >>= λ a. (f a >>= g))
regroup (ok a) f g r = r
regroup fault f g r = r
regroup hang f g r = r

-- In a state of the invariant, `lock` of a mutex that nobody holds makes the running thread its
-- owner; the thread goes on, and neither the ready list nor another mutex changes.
pub lock-takes :
    (id : ℕ) (k : Kernel)
    → Inv k
    → frames_of k k.running ≡ []
    → is_locked (mutex_of k id) ≡ false
    → Returns
        (λ l.
          Puts id (record { owner = k.running; waiting = (mutex_of k id).waiting }) k l
          × (l.running ≡ k.running)
          × (l.ready_list ≡ k.ready_list))
        (lock id k)
unfolding lock
lock-takes id k inv user free = rw free (
    sets id (λ u. record { owner = k.running; waiting = (mutex_of k id).waiting }) k
      (user-Sound 1 k inv.sound user) (λ u. refl))

-- In a state of the invariant with the ready list `next ∷ rest`, `lock` of a mutex that another
-- thread holds puts the running thread at the end of the mutex's queue and leaves its owner; `next`
-- runs, and the thread that blocks has the rest of `lock` on its stack and is not ready.
pub lock-blocks :
    (id next : ℕ) (rest : List ℕ) (k : Kernel)
    → Inv k
    → frames_of k k.running ≡ []
    → is_locked (mutex_of k id) ≡ true
    → k.running ≢ (mutex_of k id).owner
    → k.ready_list ≡ next ∷ rest
    → Returns
        (λ l.
          Puts id
            (record {
              owner = (mutex_of k id).owner;
              waiting = (mutex_of k id).waiting ++ (k.running ∷ []);
            })
            k
            l
          × (l.running ≡ next)
          × (l.ready_list ≡ rest)
          × (frames_of l k.running ≡ switched ∷ lock_rest ∷ []))
        (lock id k)
unfolding lock block_on
lock-blocks id next rest k inv user held other e =
    let m : Mutex = mutex_of k id in
    rw (held, ne→== k.running m.owner other)
      (Returns-bind
        (set_preemption-off 1 0 k (user-Sound 1 k inv.sound user) (omega arith) (omega arith))
        λ j ((inner, before), quiet).
          let x : Mutex = record { owner = m.owner; waiting = m.waiting ++ (j.running ∷ []) } in
          let q : Kernel = put_mutex id x j in
          let counts : (t : ℕ) → census t q ≡ census t j + hit t j.running = λ t. omega (
            arith,
            census-put_mutex t id x j,
            ap (λ u. count t (index new_mutex id u).waiting) quiet.mutexes_same,
            count-append t m.waiting (j.running ∷ []),
          ) in
          let s =
            stay 1 1 j q inner refl (λ t. refl) (λ t. refl)
              (λ t some_place. ground (arith, counts t)) (λ t h. h) in
          let (pushed, keeps) = push_frame-After 1 0 lock_rest q s (omega arith) in
          let there : j.ready_list ≡ next ∷ rest = quiet.ready_same ∙ e in
          Returns-mono
            (suspend-Switched 3 (push_frame lock_rest q) pushed (omega arith)
              (alone_of j (omega (arith, before.census_same j.running, inv.single j.running)))
              (omega (arith, ap length there)))
            λ l (outer, places, kept, gone).
              let turn = sym there ∙ gone.chosen in
              (
                Puts-by id _ k j l quiet (
                    gone.mutexes_same
                    ∙ ap
                        (λ u.
                          insert id (record { owner = m.owner; waiting = m.waiting ++ (u ∷ []) })
                            j.mutexes)
                        before.running_same),
                sym (cons-head turn),
                gone.ready_now ∙ append-nil gone.rest ∙ sym (cons-tail turn),
                ap (frames_of l) (sym before.running_same)
                    ∙ gone.frames_now
                    ∙ ap (λ fs. switched ∷ fs)
                        (top_frame lock_rest q
                          ∙ ap₂ (λ (c : ℕ → Context) t. lock_rest ∷ (c t).frames)
                              quiet.contexts_same before.running_same
                          ∙ ap (λ fs. lock_rest ∷ fs) user),
              ))

-- In a state of the invariant, `try_lock` of a mutex that somebody holds, be it the running thread,
-- fails and changes no mutex; of another one it succeeds and makes the running thread its owner.
-- The thread goes on either way, and the ready list stays.
pub try_lock-lem :
    (id : ℕ) (k : Kernel)
    → Inv k
    → frames_of k k.running ≡ []
    → Returns
        (λ p.
          (p.0 ≡ not (is_locked (mutex_of k id)))
          × (Puts id
                (if is_locked (mutex_of k id)
                  then mutex_of k id
                  else record { owner = k.running; waiting = (mutex_of k id).waiting })
                k
                p.1
              × (p.1.running ≡ k.running)
              × (p.1.ready_list ≡ k.ready_list)))
        (try_lock id k)
unfolding try_lock
try_lock-lem id k inv user = elim (Bool-cases (is_locked (mutex_of k id))) [
  | inl held ↦ rw held (again false (mutex_of k id) refl)
  | inr free ↦
      rw free (again true (record { owner = k.running; waiting = (mutex_of k id).waiting }) refl)
]
  where
    again :
        (b : Bool) (m : Mutex)
        → m.waiting ≡ (mutex_of k id).waiting
        → Returns
            (λ (p : Bool × Kernel).
              (p.0 ≡ b)
              × (Puts id m k p.1 × (p.1.running ≡ k.running) × (p.1.ready_list ≡ k.ready_list)))
            (set_preemption false k >>= λ j.
              (set_preemption true (put_mutex id m j) >>= λ l. ok (b, l)))
    again b m same =
        regroup (set_preemption false k) _ _
          (Returns-pair b (sets id (λ u. m) k (user-Sound 1 k inv.sound user) (λ u. same)))
