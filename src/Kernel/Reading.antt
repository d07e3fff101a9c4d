-- ===== src/Kernel/Reading.antt =====
-- `read` of a pipe, from its wait to the end: what its caller finds.
use flitos.Base.{
  ℕ, ◌^◌, ◌≤◌, ◌<◌, ◌≡◌, refl, sym, ◌∙◌, ap, subst, Bool, true, false, arith, ==_refl, List, [],
  ◌∷◌, if◌then◌else◌, contains, index-insert, length, Returns, Returns-mono,
}
use flitos.Kernel.Io.{Pipe}
use flitos.Kernel.State.{Kernel, Context, served, read_loop, frames_of, set_frames}
use flitos.Kernel.Scheduler.{is_nil}
use flitos.Kernel.Pipes.{
  no_pipe, pipe_of, load_bytes, store_bytes, dequeue_bytes, read_round, read_on, set_ret, taken,
  left_over, pop_n,
}
use flitos.Kernel.Machine.{go_on}
use flitos.Kernel.Invariant.Transfer.{dequeue_bytes-Sound}
use flitos.Kernel.Invariant.Resume.{pop-Sound}
use flitos.Kernel.Ready.{bytes_of, bytes-same}
use flitos.Kernel.Copies.{load-store_bytes, length-taken}
use flitos.Kernel.Unlocked.{unlock-Same}
use flitos.Kernel.Safety.{Inv}

pop_n-le : (n : ℕ) (bs : List ℕ) → pop_n n bs ≤ length bs
pop_n-le n bs = ground arith

some_byte : (bs : List ℕ) → 0 < length bs → is_nil bs ≡ false
some_byte [] h = absurd (omega arith)
some_byte (x ∷ xs) h = refl

-- The oldest bytes, as many as there are or as the caller wants, are at its buffer, the others are
-- still in the pipe, and `ret` is their number.
pub record Delivered (p b n : ℕ) (on : Bool) (k l : Kernel) : Type 0 where
  pub at_buffer :
      load_bytes (pop_n n (bytes_of k p)) b l.io.memory
      ≡ taken (pop_n n (bytes_of k p)) (bytes_of k p)
  pub in_pipe : bytes_of l p ≡ left_over (pop_n n (bytes_of k p)) (bytes_of k p)
  pub stack_now : frames_of l k.running ≡ served (pop_n n (bytes_of k p)) on ∷ []

dequeue_bytes-Delivered :
    (p b n r : ℕ) (on : Bool) (k : Kernel)
    → frames_of k k.running ≡ served r on ∷ []
    → b < 2 ^ 32
    → length (bytes_of k p) ≤ 2 ^ 32
    → Delivered p b n on k (dequeue_bytes p b n k)
unfolding dequeue_bytes set_ret
dequeue_bytes-Delivered p b n r on k stack h few =
    let bs : List ℕ = bytes_of k p in
    let got : List ℕ = taken (pop_n n bs) bs in
    let many : length got ≡ pop_n n bs = length-taken (pop_n n bs) bs (pop_n-le n bs) in
    record {
      at_buffer =
          subst (λ i. load_bytes i b (store_bytes got b k.io.memory) ≡ got) many
            (load-store_bytes got b k.io.memory h (omega (arith, many, pop_n-le n bs)));
      in_pipe =
          ap (λ (x : Pipe). x.bytes)
            (index-insert no_pipe p (record (pipe_of k p) { bytes = left_over (pop_n n bs) bs })
              k.io.pipes p)
          ∙ ap
              (λ c.
                (if c
                  then record (pipe_of k p) { bytes = left_over (pop_n n bs) bs }
                  else pipe_of k p).bytes)
              (==_refl p);
      stack_now = rw stack (ground arith);
    }

-- In a state of the invariant, a reader that runs again in the loop of `dequeue`, behind it its system
-- call, and finds bytes in its pipe, returns to the system call with the oldest of them, in order, at
-- its buffer, as many as it asked for or as there are; the others are still in the pipe, and the
-- number is in `ret`. The buffer starts at an address of 32 bits, and the pipe holds at most 2^32 bytes.
pub read-Delivered :
    (p b n r : ℕ) (on : Bool) (k : Kernel)
    → Inv k
    → frames_of k k.running ≡ read_loop p b n ∷ served r on ∷ []
    → contains p k.io.pipes ≡ true
    → 0 < length (bytes_of k p)
    → length (bytes_of k p) ≤ 2 ^ 32
    → b < 2 ^ 32
    → Returns (Delivered p b n on k) (go_on (read_loop p b n) (set_frames (served r on ∷ []) k))
unfolding go_on read_on read_round
read-Delivered p b n r on k inv stack there some few h =
    let k' : Kernel = set_frames (served r on ∷ []) k in
    let q : Kernel = dequeue_bytes p b n k' in
    let sound =
      dequeue_bytes-Sound 1 0 p b n k'
        (pop-Sound k (read_loop p b n) (served r on ∷ []) inv.sound stack) in
    let done = dequeue_bytes-Delivered p b n r on k' (top k) h few in
    rw (there, some_byte (bytes_of k p) some)
      (Returns-mono (unlock-Same 1 (pipe_of k p).mtx_que q sound (omega arith))
        λ l ((inner, keeps), contexts, conds). record {
          at_buffer =
              subst
                (λ i.
                  load_bytes (pop_n n (bytes_of k p)) b i.memory
                  ≡ taken (pop_n n (bytes_of k p)) (bytes_of k p))
                (sym keeps.io_same) done.at_buffer;
          in_pipe = bytes-same q l p keeps.io_same ∙ done.in_pipe;
          stack_now = ap (λ (c : ℕ → Context). (c k.running).frames) contexts ∙ done.stack_now;
        })
  where
    top : (k : Kernel) → frames_of (set_frames (served r on ∷ []) k) k.running ≡ served r on ∷ []
    top k = ground arith
