-- ===== src/Kernel/Invariant/Resume.antt =====
-- The frames: what a thread does when it runs again.
use flitos.Base.{
  ℕ, ◌<◌, ◌≡◌, refl, ap, true, false, arith, ltb, List, ◌∷◌, length, contains, inl, inr, Bool-cases,
  Returns, returns, Returns-bind, Returns-mono,
}
use flitos.Kernel.State.{
  Kernel, Frame, switched, lock_rest, handler, start, wait_rest, join_check, join_loop, sleep_loop,
  served, write_rest, read_loop, malloc_rest, free_rest, frames_of, set_frames,
}
use flitos.Kernel.Scheduler.{enable_interrupts, after_switch, thread_state}
use flitos.Kernel.Sync.{after_wait, join_round, is_unknown, is_finished, sleep_round}
use flitos.Kernel.Pipes.{set_ret}
use flitos.Kernel.Machine.{go_on}
use flitos.Kernel.Invariant.Debt.{debt, debts, rank}
use flitos.Kernel.Invariant.Sound.{Sound, After, Keeps-trans}
use flitos.Kernel.Invariant.Switch.{push_frame-After}
use flitos.Kernel.Invariant.Locks.{settle, unlock-After}
use flitos.Kernel.Invariant.Block.{Moves, Single, Moves-of_After}
use flitos.Kernel.Invariant.Behind.{lock_behind, wait_behind, settles, unlock-Moves}
use flitos.Kernel.Invariant.Transfer.{
  stage, set_ret-Sound, leave_system_call-After, write_on-Moves, read_on-Moves,
}

-- Taking the topmost frame off makes its debt due.
pub pop-Sound :
    (k : Kernel) (f : Frame) (fs : List Frame)
    → Sound 4 0 k
    → frames_of k k.running ≡ f ∷ fs
    → Sound (rank f) (debt f) (set_frames fs k)
pop-Sound k f fs s e = record {
  low = s.low;
  even = λ t. ground (arith, s.even t, ap debts e);
  shape = λ t. ground (arith, s.shape t, e);
  present = s.present;
}

pub enable_interrupts-After :
    (r e : ℕ) (k : Kernel) → Sound r e k → After r e k (enable_interrupts k)
unfolding enable_interrupts
enable_interrupts-After r e k s = settle r e k _ s refl refl refl refl refl (λ t. refl)

round-Moves :
    (t m c : ℕ) (k : Kernel)
    → Sound 1 0 k
    → Single k
    → 0 < length k.ready_list
    → Returns (Moves k) (join_round t m c k)
unfolding join_round
round-Moves t m c k s single others = elim (Bool-cases (is_finished (thread_state t k))) [
  | inl over ↦ rw over (
      Returns-mono (unlock-After 1 0 m k s (omega arith) (omega arith))
        λ l done. Moves-of_After 1 k l (omega arith) done)
  | inr running_still ↦ rw running_still (
      wait_behind 2 c m k _ (push_frame-After 1 0 (join_loop t m c) k s (omega arith)) (omega arith)
        single others)
]

sleep_round-Moves :
    (w : ℕ) (k : Kernel)
    → Sound 1 0 k
    → Single k
    → 0 < length k.ready_list
    → Returns (Moves k) (sleep_round w k)
unfolding sleep_round
sleep_round-Moves w k s single others = elim (Bool-cases (ltb k.systick w)) [
  | inl early ↦ rw early (
      wait_behind 2 k.cond_for_sleep k.mtx_for_sleep k _
        (push_frame-After 1 0 (sleep_loop w) k s (omega arith)) (omega arith) single others)
  | inr over ↦ rw over (
      Returns-mono (unlock-After 1 0 k.mtx_for_sleep k s (omega arith) (omega arith))
        λ l done. Moves-of_After 1 k l (omega arith) done)
]

-- What a frame relies on: `join` goes on with an id that was given, a transfer while its pipe is open,
-- and where the frame may take its thread off the processor, another one is ready.
abbrev pub Fine : Frame → Kernel → Type 0
Fine (join_check t m c) k = (is_unknown (thread_state t k) ≡ false) × (0 < length k.ready_list)
Fine switched k = Unit {0}
Fine lock_rest k = Unit {0}
Fine handler k = Unit {0}
Fine start k = Unit {0}
Fine (wait_rest m) k = 0 < length k.ready_list
Fine (join_loop t m c) k = 0 < length k.ready_list
Fine (sleep_loop w) k = 0 < length k.ready_list
Fine (served r on) k = Unit {0}
Fine (write_rest p b n) k = contains p k.io.pipes ≡ true
Fine (read_loop p b n) k = (contains p k.io.pipes ≡ true) × (0 < length k.ready_list)
Fine (malloc_rest m r) k = Unit {0}
Fine (free_rest m) k = Unit {0}

-- Every frame runs to its end or to the next suspension, behind what it does to the pipes, the memory
-- and `ret`.
pub go_on-Moves :
    (f : Frame) (k : Kernel)
    → Sound (rank f) (debt f) k
    → Fine f k
    → Single k
    → Returns (Moves (stage f k)) (go_on f k)
unfolding go_on after_switch after_wait enable_interrupts stage
go_on-Moves switched k s fine single =
    let (inner, keeps) = enable_interrupts-After 3 1 k s in
    Returns-mono (settles 3 0 (enable_interrupts k) inner (omega arith) (omega arith))
      λ l (done, more). Moves-of_After 3 k l (omega arith) (done, Keeps-trans keeps more)
go_on-Moves lock_rest k s fine single =
    Returns-mono (settles 2 0 k s (omega arith) (omega arith))
      λ l done. Moves-of_After 2 k l (omega arith) done
go_on-Moves (wait_rest m) k s fine single =
    Returns-bind (settles 2 0 k s (omega arith) (omega arith))
      λ j done. lock_behind 2 m k j done (omega arith) single fine
go_on-Moves (join_check t m c) k s fine single = rw (fine.0) (round-Moves t m c k s single fine.1)
go_on-Moves (join_loop t m c) k s fine single = round-Moves t m c k s single fine
go_on-Moves (sleep_loop w) k s fine single = sleep_round-Moves w k s single fine
go_on-Moves handler k s fine single =
    returns
      (Moves-of_After 3 k _ (omega arith) (settle 3 0 k _ s refl refl refl refl refl (λ t. refl)))
go_on-Moves start k s fine single =
    returns (Moves-of_After 3 k _ (omega arith) (enable_interrupts-After 3 0 k s))
go_on-Moves (served r on) k s fine single =
    returns (Moves-of_After 0 k _ (omega arith) (leave_system_call-After 0 r on k s))
go_on-Moves (write_rest p b n) k s fine single = write_on-Moves p b n k s fine
go_on-Moves (read_loop p b n) k s fine single = read_on-Moves p b n k s fine.0 single fine.1
go_on-Moves (malloc_rest m r) k s fine single =
    unlock-Moves m (set_ret r k) (set_ret-Sound 1 0 r k s)
go_on-Moves (free_rest m) k s fine single = unlock-Moves m k s
