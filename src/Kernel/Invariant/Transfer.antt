-- ===== src/Kernel/Invariant/Transfer.antt =====
-- The transfers of pipes behind `lock`, and the end of a system call.
use flitos.Base.{
  ℕ, ◌<◌, ◌≡◌, refl, Bool, true, arith, List, [], ◌∷◌, if◌then◌else◌, length, contains, inl, inr,
  Bool-cases, Returns, Returns-bind, Returns-mono,
}
use flitos.Kernel.State.{
  Frame, switched, lock_rest, handler, start, wait_rest, join_check, join_loop, sleep_loop, served,
  write_rest, read_loop, malloc_rest, free_rest, Kernel, frames_of,
}
use flitos.Kernel.Scheduler.{is_nil}
use flitos.Kernel.Pipes.{
  pipe_of, put_io, enqueue_bytes, dequeue_bytes, write_on, answer, set_ret, read_round, read_on,
}
use flitos.Kernel.Machine.{leave_system_call}
use flitos.Kernel.Invariant.Debt.{debts, Ordered}
use flitos.Kernel.Io.{Io}
use flitos.Kernel.Invariant.Census.{census}
use flitos.Kernel.Invariant.Sound.{Joins-same, Sound, After, Keeps-trans}
use flitos.Kernel.Invariant.Switch.{push_frame-After}
use flitos.Kernel.Invariant.Locks.{stay, unlock-After}
use flitos.Kernel.Invariant.Notify.{notify_one-After}
use flitos.Kernel.Invariant.Block.{Moves, Single, Moves-of_After}
use flitos.Kernel.Invariant.Behind.{wait_behind, unlock-Moves}

-- What a frame does to the pipes, the memory and `ret` before it unlocks.
unfoldable pub stage : Frame → Kernel → Kernel
stage (write_rest p b n) k = enqueue_bytes p b n k
stage (read_loop p b n) k = if is_nil (pipe_of k p).bytes then k else dequeue_bytes p b n k
stage (malloc_rest m r) k = set_ret r k
stage switched k = k
stage lock_rest k = k
stage handler k = k
stage start k = k
stage (wait_rest m) k = k
stage (join_check t m c) k = k
stage (join_loop t m c) k = k
stage (sleep_loop w) k = k
stage (free_rest m) k = k
stage (served r on) k = k

pub census-stage : (f : Frame) (k : Kernel) (t : ℕ) → census t (stage f k) ≡ census t k
unfolding stage enqueue_bytes dequeue_bytes set_ret
census-stage (read_loop p b n) k t = elim (Bool-cases (is_nil (pipe_of k p).bytes)) [
  | inl empty ↦ rw empty refl
  | inr some_byte ↦ rw some_byte refl
]
census-stage f k t = refl

pub handlers-stage : (f : Frame) (k : Kernel) → (stage f k).io.handlers ≡ k.io.handlers
unfolding stage enqueue_bytes dequeue_bytes set_ret
handlers-stage (read_loop p b n) k = elim (Bool-cases (is_nil (pipe_of k p).bytes)) [
  | inl empty ↦ rw empty refl
  | inr some_byte ↦ rw some_byte refl
]
handlers-stage f k = refl

debts-answer : (v : ℕ) (fs : List Frame) → debts (answer v fs) ≡ debts fs
debts-answer v [] = refl
debts-answer v (served r on ∷ fs) = refl
debts-answer v (f ∷ fs) = refl

Ordered-answer : (b v : ℕ) (fs : List Frame) → Ordered b fs → Ordered b (answer v fs)
Ordered-answer b v [] o = o
Ordered-answer b v (served r on ∷ fs) o = o
Ordered-answer b v (f ∷ fs) o = o

pub set_ret-Sound : (r e v : ℕ) (k : Kernel) → Sound r e k → Sound r e (set_ret v k)
unfolding set_ret
set_ret-Sound r e v k s = record {
  low = s.low;
  even = λ t. ground (arith, s.even t, debts-answer v (frames_of k t));
  shape = λ t. ground (arith, s.shape t, Ordered-answer r v (frames_of k t));
  present = s.present;
}

pub put_io-Sound : (r e : ℕ) (i : Io) (k : Kernel) → Sound r e k → Sound r e (put_io i k)
put_io-Sound r e i k s = record { low = s.low; even = s.even; shape = s.shape; present = s.present }

pub enqueue_bytes-Sound :
    (r e p b n : ℕ) (k : Kernel) → Sound r e k → Sound r e (enqueue_bytes p b n k)
unfolding enqueue_bytes
enqueue_bytes-Sound r e p b n k s = put_io-Sound r e _ k s

pub dequeue_bytes-Sound :
    (r e p b n : ℕ) (k : Kernel) → Sound r e k → Sound r e (dequeue_bytes p b n k)
unfolding dequeue_bytes
dequeue_bytes-Sound r e p b n k s = set_ret-Sound r e _ _ (put_io-Sound r e _ k s)

-- The frame of the system call is gone, and its `ret` is in a0.
pub leave_system_call-After :
    (r v : ℕ) (on : Bool) (k : Kernel) → Sound r 0 k → After r 0 k (leave_system_call v on k)
unfolding leave_system_call
leave_system_call-After r v on k s = (
  stay r 0 k (leave_system_call v on k) s refl (λ t. refl) (λ t. ground arith) (λ t h. h)
      (λ t h. h),
  record {
    census_same = λ t. refl;
    kept = λ t h. h;
    room = omega arith;
    joins = Joins-same _ _ refl;
    running_same = refl;
    io_same = refl;
  },
)

pub write_on-Moves :
    (p b n : ℕ) (k : Kernel)
    → Sound 1 0 k
    → contains p k.io.pipes ≡ true
    → Returns (Moves (stage (write_rest p b n) k)) (write_on p b n k)
unfolding write_on stage
write_on-Moves p b n k s there =
    let q : Kernel = enqueue_bytes p b n k in
    rw there (
      Returns-bind
        (unlock-After 1 0 (pipe_of k p).mtx_que q (enqueue_bytes-Sound 1 0 p b n k s) (omega arith)
          (omega arith))
        λ j (inner, keeps).
          Returns-mono
            (notify_one-After 1 0 (pipe_of k p).cond_que j inner (omega arith) (omega arith))
            λ l ((outer, more), shorter).
              Moves-of_After 1 q l (omega arith) (outer, Keeps-trans keeps more))

pub read_on-Moves :
    (p b n : ℕ) (k : Kernel)
    → Sound 1 0 k
    → contains p k.io.pipes ≡ true
    → Single k
    → 0 < length k.ready_list
    → Returns (Moves (stage (read_loop p b n) k)) (read_on p b n k)
unfolding read_on read_round stage
read_on-Moves p b n k s there single others = elim (Bool-cases (is_nil (pipe_of k p).bytes)) [
  | inl empty ↦
      rw (there, empty)
        (wait_behind 2 (pipe_of k p).cond_que (pipe_of k p).mtx_que k _
          (push_frame-After 1 0 (read_loop p b n) k s (omega arith)) (omega arith) single others)
  | inr some_byte ↦
      rw (there, some_byte)
        (unlock-Moves (pipe_of k p).mtx_que (dequeue_bytes p b n k)
          (dequeue_bytes-Sound 1 0 p b n k s))
]
