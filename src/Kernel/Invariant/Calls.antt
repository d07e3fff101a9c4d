-- ===== src/Kernel/Invariant/Calls.antt =====
-- The calls that a thread makes from its own code.
use flitos.Base.{
  ℕ, ◌+◌, ◌%◌, ◌^◌, ◌<◌, ◌≡◌, refl, sym, ◌∙◌, ap, subst, true, arith, List, [], ◌∷◌, contains,
  index-insert, contains-insert, length, Returns, Returns-bind, Returns-mono,
}
use flitos.Kernel.State.{
  Kernel, ThreadState, ready, finished, Frame, Tcb, new_tcb, join_check, sleep_loop, tcb_of,
  frames_of, put_tcb, push_frame,
}
use flitos.Kernel.Scheduler.{yield_thread, switch_current_thread_to, switch_ready, exit}
use flitos.Kernel.Sync.{join, sleep}
use flitos.Kernel.Machine.{notify_joiners}
use flitos.Kernel.Invariant.Turn.{Gone-Turn}
use flitos.Kernel.Invariant.Census.{hit}
use flitos.Kernel.Invariant.Preempt.{set_preemption-off, set_preemption-on}
use flitos.Kernel.Invariant.Sound.{Sound, After, Keeps-trans}
use flitos.Kernel.Invariant.Switch.{parked, Switched, push_frame-After}
use flitos.Kernel.Invariant.Leave.{yield_thread-Switched, exit-Switched}
use flitos.Kernel.Invariant.Notify.{notify_all-After}
use flitos.Kernel.Invariant.Block.{Moves, Single, Moves-after, Moves-of_After, alone_of, lock-Moves}

-- In a thread's own code there is nothing on its stack, so that any call may come.
pub user-Sound : (r : ℕ) (k : Kernel) → Sound 4 0 k → frames_of k k.running ≡ [] → Sound r 0 k
user-Sound r k s e = record {
  low = s.low;
  even = λ t. ground (arith, s.even t);
  shape = λ t. ground (arith, s.shape t, e);
  present = s.present;
}

-- With nobody ready `yield` goes on with the same thread.
pub yields_alone :
    (k : Kernel)
    → Sound 1 0 k
    → k.ready_list ≡ []
    → Returns (λ l. Moves k l × (l.running ≡ k.running)) (yield_thread k)
unfolding yield_thread switch_current_thread_to switch_ready
yields_alone k s nobody =
    Returns-bind (set_preemption-off 1 0 k s (omega arith) (omega arith))
      λ j ((inner, before), quiet).
        subst (λ ts. Returns (λ l. Moves k l × (l.running ≡ k.running)) (switch_ready ready ts j))
          (sym (quiet.ready_same ∙ nobody))
          (Returns-mono (set_preemption-on 1 0 j inner (omega arith) (omega arith))
            λ l ((outer, behind), still). (
              Moves-of_After 1 k l (omega arith) (outer, Keeps-trans before behind),
              behind.running_same ∙ before.running_same,
            ))

-- A thread that leaves for the first ready one.
leaves-Moves :
    (s : ThreadState) (k : Kernel)
    → Single k
    → ((t : ℕ) → parked s t k.running ≡ hit t k.running)
    → Returns (Switched s k) (switch_current_thread_to s k)
    → Returns (Moves k) (switch_current_thread_to s k)
leaves-Moves s k single stays r = Returns-mono r λ l (outer, places, more, gone). record {
  sound = outer;
  census_same = λ t. omega (arith, places t, stays t);
  kept = more;
  io_same = gone.data_kept;
  turn = Gone-Turn s k l gone (alone_of k (single k.running));
}

pub yields-Moves : (k : Kernel) → Sound 1 0 k → Single k → Returns (Moves k) (yield_thread k)
unfolding yield_thread parked
yields-Moves k s single = by k.ready_list refl
  where
    by : (ts : List ℕ) → k.ready_list ≡ ts → Returns (Moves k) (yield_thread k)
    by [] e = Returns-mono (yields_alone k s e) λ l done. done.0
    by (t ∷ ts) e =
        leaves-Moves ready k single (λ u. refl)
          (yield_thread-Switched 1 k s (omega arith) (alone_of k (single k.running))
            (omega (arith, ap length e)))

pub exits-Moves :
    (k : Kernel) → Sound 1 0 k → Single k → 0 < length k.ready_list → Returns (Moves k) (exit k)
unfolding exit parked
exits-Moves k s single others =
    leaves-Moves finished k single (λ u. refl)
      (exit-Switched 1 k s (omega arith) (alone_of k (single k.running)) others)

-- A thread whose function returned wakes those that join it.
pub notify_joiners-After : (k : Kernel) → Sound 1 0 k → Returns (After 1 0 k) (notify_joiners k)
unfolding notify_joiners
notify_joiners-After k s =
    rw (s.present k.running (ground arith))
      (notify_all-After 1 0 (tcb_of k k.running).cond_for_join k s (omega arith) (omega arith))

pub joins-Moves :
    (t : ℕ) (k : Kernel)
    → Sound 1 0 k
    → Single k
    → 0 < length k.ready_list
    → Returns (Moves k) (join t k)
unfolding join
joins-Moves t k s single others =
    let b : Tcb = tcb_of k t in
    let f : Frame = join_check t b.mtx_for_join b.cond_for_join in
    let same : (u : ℕ) → tcb_of (put_tcb t b k) u ≡ tcb_of k u =
      λ u. ground (arith, index-insert new_tcb t b k.tcbs u) in
    let kept : (u : ℕ) → contains u k.tcbs ≡ true → contains u (put_tcb t b k).tcbs ≡ true =
      λ u h. ground (arith, contains-insert t b k.tcbs u) in
    let inner : Sound 1 0 (put_tcb t b k) = record {
      low = λ u. omega (arith, s.low u, ap (λ (c : Tcb). c.preemption) (same u));
      even = λ u. ground (arith, s.even u, ap (λ (c : Tcb). c.preemption) (same u));
      shape = s.shape;
      present = λ u h. kept u (s.present u h);
    } in
    let (pushed, keeps) = push_frame-After 1 0 f (put_tcb t b k) inner (omega arith) in
    Returns-mono
      (lock-Moves 2 b.mtx_for_join (push_frame f (put_tcb t b k)) pushed (omega arith) single
        others)
      λ l m. record {
        sound = m.sound;
        census_same = m.census_same;
        kept = λ u h. m.kept u (kept u h);
        io_same = m.io_same;
        turn = m.turn;
      }

pub sleeps-Moves :
    (n : ℕ) (k : Kernel)
    → Sound 1 0 k
    → Single k
    → 0 < length k.ready_list
    → Returns (Moves k) (sleep n k)
unfolding sleep
sleeps-Moves n k s single others =
    let f : Frame = sleep_loop ((k.systick + n) % 2 ^ 32) in
    let (pushed, keeps) = push_frame-After 1 0 f k s (omega arith) in
    Returns-mono (lock-Moves 2 k.mtx_for_sleep (push_frame f k) pushed (omega arith) single others)
      λ l m. Moves-after keeps m
