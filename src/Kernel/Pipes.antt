-- ===== src/Kernel/Pipes.antt =====
-- `PipeFactory` of cs251_pipe.h with the `ThreadSafeQueue` of cs251_thread_safe_queue.h, and
-- `allocatorMutexInstance` of ecs_allocator.h. A transfer waits behind frames, as `sleep` does. What
-- the containers allocate while they grow is left out: it never waits here.
use flitos.Base.{
  ℕ, zero, suc, ◌+◌, ◌%◌, ◌^◌, List, [], ◌∷◌, ◌++◌, ltb, ◌==◌, if◌then◌else◌, length, contains,
  index, insert, erase_key, Outcome, ok, fault, ◌>>=◌,
}
use flitos.Firmware.Memory.{Bytes, store}
use flitos.Kernel.Io.{Pipe, Io}
use flitos.Kernel.State.{
  Frame, served, write_rest, read_loop, Kernel, minus_one, frames_of, push_frame, set_frames,
}
use flitos.Kernel.Scheduler.{is_nil}
use flitos.Kernel.Sync.{create_mutex, create_cond, lock, unlock, wait, notify_one}

abbrev pub no_pipe : Pipe
no_pipe = record { mtx_que = 0; cond_que = 0; bytes = [] }

abbrev pub pipe_of : Kernel → ℕ → Pipe
pipe_of k p = index no_pipe p k.io.pipes

abbrev pub put_io : Io → Kernel → Kernel
put_io i k = record k { io = i }

abbrev pub put_pipe : ℕ → Pipe → Kernel → Kernel
put_pipe p x k = put_io (record (k.io) { pipes = insert p x k.io.pipes }) k

abbrev pub put_bytes : ℕ → List ℕ → Kernel → Kernel
put_bytes p bs k = put_pipe p (record (pipe_of k p) { bytes = bs }) k

-- `PipeInternal()`: `ThreadSafeQueue()`
unfoldable pub make_pipe : Kernel → Pipe × Kernel
make_pipe k =
    let (m, k₁) = create_mutex k in
    let (c, k₂) = create_cond k₁ in (record { mtx_que = m; cond_que = c; bytes = [] }, k₂)

-- `id_map_[id]` makes a pipe where there is none.
unfoldable pub subscript_pipe : ℕ → Kernel → Kernel
subscript_pipe p k =
    let (x, k₁) = make_pipe k in if contains p k.io.pipes then k else put_pipe p x k₁

-- `open`: the new `PipeInternal` takes the place of the one that `id_map_[seq_id_]` makes, whose
-- mutex and condition variable stay behind.
unfoldable pub open_pipe : Kernel → ℕ × Kernel
open_pipe k =
    let id = (k.io.pipe_seq + 1) % 2 ^ 32 in
    let (x, k₁) = make_pipe (put_io (record (k.io) { pipe_seq = id }) k) in
    (id, put_pipe id x (subscript_pipe id k₁))

-- The queue's mutex and condition variable live on.
unfoldable pub close_pipe : ℕ → Kernel → Outcome Kernel
close_pipe p k = do t ← erase_key p k.io.pipes; ok (put_io (record (k.io) { pipes = t }) k)

-- `write` and `read` up to `lock`
unfoldable pub write_pipe : ℕ → ℕ → ℕ → Kernel → Outcome Kernel
write_pipe p b n k =
    let k₁ = subscript_pipe p k in lock (pipe_of k₁ p).mtx_que (push_frame (write_rest p b n) k₁)

unfoldable pub read_pipe : ℕ → ℕ → ℕ → Kernel → Outcome Kernel
read_pipe p b n k =
    let k₁ = subscript_pipe p k in lock (pipe_of k₁ p).mtx_que (push_frame (read_loop p b n) k₁)

-- The `n` bytes at `b`.
unfoldable pub load_bytes : ℕ → ℕ → Bytes → List ℕ
load_bytes zero b m = []
load_bytes (suc n) b m = m b ∷ load_bytes n ((b + 1) % 2 ^ 32) m

unfoldable pub store_bytes : List ℕ → ℕ → Bytes → Bytes
store_bytes [] b m = m
store_bytes (v ∷ vs) b m = store_bytes vs ((b + 1) % 2 ^ 32) (store b v m)

-- The loop of `enqueue`.
unfoldable pub enqueue_bytes : ℕ → ℕ → ℕ → Kernel → Kernel
enqueue_bytes p b n k = put_bytes p ((pipe_of k p).bytes ++ load_bytes n b k.io.memory) k

-- `enqueue` behind `lock`. Where the pipe was closed meanwhile, its queue is gone.
unfoldable pub write_on : ℕ → ℕ → ℕ → Kernel → Outcome Kernel
write_on p b n k = do
  let x = pipe_of k p
  if contains p k.io.pipes
      then unlock x.mtx_que (enqueue_bytes p b n k) >>= notify_one x.cond_que
      else fault

-- `ret = v;` in `c_system_call`, whose frame is the topmost one.
abbrev pub answer : ℕ → List Frame → List Frame
answer v (served r on ∷ fs) = served v on ∷ fs
answer v fs = fs

unfoldable pub set_ret : ℕ → Kernel → Kernel
set_ret v k = set_frames (answer v (frames_of k k.running)) k

-- What `pop_n` rounds take out and leave.
unfoldable pub taken : ℕ → List ℕ → List ℕ
taken zero xs = []
taken (suc n) [] = []
taken (suc n) (x ∷ xs) = x ∷ taken n xs

unfoldable pub left_over : ℕ → List ℕ → List ℕ
left_over zero xs = xs
left_over (suc n) [] = []
left_over (suc n) (x ∷ xs) = left_over n xs

abbrev pub pop_n : ℕ → List ℕ → ℕ
pop_n n xs = if ltb n (length xs) then n else length xs

-- The loop of `dequeue` behind the wait, and the result of `read`.
unfoldable pub dequeue_bytes : ℕ → ℕ → ℕ → Kernel → Kernel
dequeue_bytes p b n k =
    let bs = (pipe_of k p).bytes in
    let k₁ = put_bytes p (left_over (pop_n n bs) bs) k in
    let stored = store_bytes (taken (pop_n n bs) bs) b k.io.memory in
    set_ret (pop_n n bs) (put_io (record (k₁.io) { memory = stored }) k₁)

-- One test of the loop of `dequeue`.
unfoldable pub read_round : ℕ → ℕ → ℕ → Kernel → Outcome Kernel
read_round p b n k = do
  let x = pipe_of k p
  if is_nil x.bytes
      then wait x.cond_que x.mtx_que (push_frame (read_loop p b n) k)
      else unlock x.mtx_que (dequeue_bytes p b n k)

unfoldable pub read_on : ℕ → ℕ → ℕ → Kernel → Outcome Kernel
read_on p b n k = if contains p k.io.pipes then read_round p b n k else fault

-- `allocatorMutexInstance`
unfoldable pub allocator_mutex_instance : Kernel → ℕ × Kernel
allocator_mutex_instance k =
    let (m, k₁) = create_mutex k in
    if k.io.mtx_allocator == minus_one
    then (m, put_io (record (k.io) { mtx_allocator = m }) k₁)
    else (k.io.mtx_allocator, k)
