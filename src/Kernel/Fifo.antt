-- ===== src/Kernel/Fifo.antt =====
-- The order of the bytes in a pipe, over any run of the kernel.
use flitos.Base.{
  ℕ, zero, suc, ◌≡◌, refl, sym, ◌∙◌, ap, Bool, true, false, ◌==◌, ==→eq, List, [], ◌∷◌, ◌++◌,
  if◌then◌else◌, append_assoc, append-nil, index-insert, inl, inr, Bool-cases,
}
use flitos.Kernel.Io.{Pipe}
use flitos.Kernel.State.{Kernel, Frame, write_rest, read_loop, set_frames}
use flitos.Kernel.Scheduler.{is_nil}
use flitos.Kernel.Pipes.{
  no_pipe, pipe_of, put_bytes, load_bytes, enqueue_bytes, dequeue_bytes, set_ret, taken, left_over,
  pop_n,
}
use flitos.Kernel.Machine.{call, go_on}
use flitos.Kernel.Interrupts.{interrupt}
use flitos.Kernel.SystemCalls.{system_call_of, enter, c_system_call}
use flitos.Kernel.Machine.Step.{Step, calls, goes_on, serves, ticks}
use flitos.Kernel.Invariant.Transfer.{stage}
use flitos.Kernel.Invariant.Resume.{pop-Sound, go_on-Moves}
use flitos.Kernel.Invariant.Calls.{user-Sound}
use flitos.Kernel.Interrupted.{interrupt-Serves}
use flitos.Kernel.Ready.{bytes_of, bytes-same}
use flitos.Kernel.AllCalls.{call-Lands}
use flitos.Kernel.Admitted.{resets}
use flitos.Kernel.AllServes.{system_call-Serves}
use flitos.Kernel.Safety.{Inv, Allowed, at_result}
use flitos.Kernel.Reach.{Run, here, onward, Run-Inv}

-- The bytes that a frame puts into the pipe `p`, and those that it takes out of it.
unfoldable pub sent : Frame → Kernel → ℕ → List ℕ
sent (write_rest q b n) k p = if q == p then load_bytes n b k.io.memory else []
sent f k p = []

unfoldable pub received : Frame → Kernel → ℕ → List ℕ
received (read_loop q b n) k p =
    if q == p then taken (pop_n n (bytes_of k q)) (bytes_of k q) else []
received f k p = []

bytes-put_bytes :
    (q : ℕ) (bs : List ℕ) (k : Kernel) (p : ℕ)
    → bytes_of (put_bytes q bs k) p ≡ (if q == p then bs else bytes_of k p)
bytes-put_bytes q bs k p =
    ap (λ (x : Pipe). x.bytes)
      (index-insert no_pipe q (record (pipe_of k q) { bytes = bs }) k.io.pipes p)
    ∙ by (q == p)
  where
    by :
        (b : Bool)
        → (if b then record (pipe_of k q) { bytes = bs } else pipe_of k p).bytes
          ≡ (if b then bs else bytes_of k p)
    by true = refl
    by false = refl

pub taken-left_over : (n : ℕ) (xs : List ℕ) → taken n xs ++ left_over n xs ≡ xs
unfolding taken left_over
taken-left_over zero xs = refl
taken-left_over (suc n) [] = refl
taken-left_over (suc n) (x ∷ xs) = ap (λ ys. x ∷ ys) (taken-left_over n xs)

enqueue-Fifo :
    (q b n : ℕ) (k : Kernel) (p : ℕ)
    → bytes_of k p ++ sent (write_rest q b n) k p ≡ bytes_of (enqueue_bytes q b n k) p
unfolding sent enqueue_bytes
enqueue-Fifo q b n k p =
    let bs : List ℕ = bytes_of k q ++ load_bytes n b k.io.memory in
    elim (Bool-cases (q == p)) [
      | inl same ↦ rw same (
          ap (λ r. bytes_of k r ++ load_bytes n b k.io.memory) (sym (==→eq q p same))
          ∙ sym (bytes-put_bytes q bs k p ∙ ap (λ c. if c then bs else bytes_of k p) same))
      | inr other ↦ rw other (
          append-nil (bytes_of k p)
          ∙ sym (bytes-put_bytes q bs k p ∙ ap (λ c. if c then bs else bytes_of k p) other))
    ]

dequeue-Fifo :
    (q b n : ℕ) (k : Kernel) (p : ℕ)
    → bytes_of k p ≡ received (read_loop q b n) k p ++ bytes_of (dequeue_bytes q b n k) p
unfolding received dequeue_bytes set_ret
dequeue-Fifo q b n k p =
    let bs : List ℕ = bytes_of k q in
    let rest : List ℕ = left_over (pop_n n bs) bs in
    let now : bytes_of (put_bytes q rest k) p ≡ (if q == p then rest else bytes_of k p) =
      bytes-put_bytes q rest k p in
    elim (Bool-cases (q == p)) [
      | inl same ↦ rw same (
          ap (bytes_of k) (sym (==→eq q p same))
          ∙ sym (taken-left_over (pop_n n bs) bs)
          ∙ ap (λ ys. taken (pop_n n bs) bs ++ ys)
              (sym (now ∙ ap (λ c. if c then rest else bytes_of k p) same)))
      | inr other ↦ rw other (sym (now ∙ ap (λ c. if c then rest else bytes_of k p) other))
    ]

taken-nil : (n : ℕ) → taken n [] ≡ []
unfolding taken
taken-nil zero = refl
taken-nil (suc n) = refl

taken-empty : (m : ℕ) (xs : List ℕ) → is_nil xs ≡ true → taken m xs ≡ []
taken-empty m [] e = taken-nil m
taken-empty m (x ∷ xs) e = cc

-- With no byte there `dequeue` waits, and takes nothing.
received-empty :
    (q b n : ℕ) (k : Kernel) (p : ℕ)
    → is_nil (bytes_of k q) ≡ true
    → received (read_loop q b n) k p ≡ []
unfolding received
received-empty q b n k p e = elim (Bool-cases (q == p)) [
  | inl same ↦ rw same (taken-empty (pop_n n (bytes_of k q)) (bytes_of k q) e)
  | inr other ↦ rw other refl
]

stage-Fifo :
    (f : Frame) (k : Kernel) (p : ℕ)
    → bytes_of k p ++ sent f k p ≡ received f k p ++ bytes_of (stage f k) p
unfolding stage sent received set_ret
stage-Fifo (write_rest q b n) k p = enqueue-Fifo q b n k p
stage-Fifo (read_loop q b n) k p =
    append-nil (bytes_of k p) ∙ elim (Bool-cases (is_nil (bytes_of k q))) [
      | inl empty ↦ rw (empty, received-empty q b n k p empty) refl
      | inr some_byte ↦ rw some_byte (dequeue-Fifo q b n k p)
    ]
stage-Fifo f k p = append-nil (bytes_of k p)

-- The same of a step.
abbrev pub sent_by : {k l : Kernel} → Step k l → ℕ → List ℕ
sent_by {k} (goes_on f fs e run) p = sent f (set_frames fs k) p
sent_by s p = []

abbrev pub received_by : {k l : Kernel} → Step k l → ℕ → List ℕ
received_by {k} (goes_on f fs e run) p = received f (set_frames fs k) p
received_by s p = []

-- Whether a step opens or closes the pipe `p`.
abbrev pub cleared_by : {k l : Kernel} → Step k l → ℕ → Bool
cleared_by {k} (serves o a0 a1 a2 n e run) p = resets (system_call_of a0 a1 a2 n) (enter k) p
cleared_by s p = false

same-Fifo : (k l : Kernel) (p : ℕ) → bytes_of l p ≡ bytes_of k p → bytes_of k p ++ [] ≡ bytes_of l p
same-Fifo k l p e = append-nil (bytes_of k p) ∙ sym e

pub step-Fifo :
    (k l : Kernel) (p : ℕ)
    → Inv k
    → (s : Step k l) → Allowed s
    → cleared_by s p ≡ false
    → bytes_of k p ++ sent_by s p ≡ received_by s p ++ bytes_of l p
step-Fifo k l p inv (calls c e run) a clear =
    let (inner, counts, io, turn) =
      at_result (call c k) l (call-Lands c k (user-Sound 1 k inv.sound e) inv.single a) run in
    same-Fifo k l p (bytes-same k l p io)
step-Fifo k l p inv (serves o a0 a1 a2 n e run) a clear =
    let done =
      at_result (c_system_call o a0 a1 a2 n k) l
        (system_call-Serves o a0 a1 a2 n k (user-Sound 0 k inv.sound e) inv.single a inv.live)
        run in
    same-Fifo k l p (done.bytes_same p clear)
step-Fifo k l p inv (goes_on f fs e run) a clear =
    let k' : Kernel = set_frames fs k in
    let moves =
      at_result (go_on f k') l (go_on-Moves f k' (pop-Sound k f fs inv.sound e) a inv.single) run in
    stage-Fifo f k' p
    ∙ ap (λ bs. received f k' p ++ bs) (sym (bytes-same (stage f k') l p moves.io_same))
step-Fifo k l p inv (ticks d e on run) a clear =
    let done =
      at_result (interrupt d k) l
        (interrupt-Serves d k (user-Sound 3 k inv.sound e) inv.single inv.live) run in
    same-Fifo k l p (done.bytes_same p refl)

-- The bytes that a run puts into the pipe and takes out of it, oldest first.
abbrev pub sent_in : {k l : Kernel} → Run k l → ℕ → List ℕ
sent_in here p = []
sent_in (onward before s a) p = sent_in before p ++ sent_by s p

abbrev pub received_in : {k l : Kernel} → Run k l → ℕ → List ℕ
received_in here p = []
received_in (onward before s a) p = received_in before p ++ received_by s p

-- No step opens or closes the pipe `p`.
abbrev pub Untouched : {k l : Kernel} → Run k l → ℕ → Type 0
Untouched here p = Unit {0}
Untouched (onward before s a) p = Untouched before p × (cleared_by s p ≡ false)

-- Over any run of allowed steps (see `Allowed`), none of which opens or closes the pipe, whatever
-- the threads and their switches: the bytes that were in the pipe and those that were sent are, in
-- this order, the bytes that were received and those that are in the pipe. None is lost, made up,
-- doubled or overtaken.
pub Run-Fifo :
    (k l : Kernel) (p : ℕ)
    → Inv k
    → (run : Run k l) → Untouched run p
    → bytes_of k p ++ sent_in run p ≡ received_in run p ++ bytes_of l p
Run-Fifo k l p inv here clear = append-nil (bytes_of k p)
Run-Fifo k l p inv (onward {j} before s a) clear =
    let one = step-Fifo j l p ((Run-Inv k j inv before).0) s a clear.1 in
    sym (append_assoc (bytes_of k p) (sent_in before p) (sent_by s p))
    ∙ ap (λ bs. bs ++ sent_by s p) (Run-Fifo k j p inv before clear.0)
    ∙ append_assoc (received_in before p) (bytes_of j p) (sent_by s p)
    ∙ ap (λ bs. received_in before p ++ bs) one
    ∙ sym (append_assoc (received_in before p) (received_by s p) (bytes_of l p))
