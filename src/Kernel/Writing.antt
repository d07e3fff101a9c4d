-- ===== src/Kernel/Writing.antt =====
-- `write` of a pipe behind its lock: who is woken.
use flitos.Base.{
  ℕ, ◌≡◌, ◌∙◌, ap, true, arith, ==_refl, List, [], ◌∷◌, ◌++◌, append_assoc, if◌then◌else◌, contains,
  index, index-insert, Returns, Returns-bind, Returns-mono,
}
use flitos.Kernel.Io.{Pipe}
use flitos.Kernel.State.{
  Kernel, Frame, write_rest, frames_of, set_frames, cond_of, new_cond, minus_one,
}
use flitos.Kernel.Pipes.{no_pipe, pipe_of, load_bytes, enqueue_bytes, write_on}
use flitos.Kernel.Machine.{go_on}
use flitos.Kernel.Invariant.Transfer.{enqueue_bytes-Sound}
use flitos.Kernel.Invariant.Resume.{pop-Sound}
use flitos.Kernel.Ready.{bytes_of, bytes-same}
use flitos.Kernel.Unlocked.{unlock-Same}
use flitos.Kernel.Waking.{notify_one-Woken}
use flitos.Kernel.Safety.{Inv}

bytes-enqueue_bytes :
    (p b n : ℕ) (k : Kernel)
    → bytes_of (enqueue_bytes p b n k) p ≡ bytes_of k p ++ load_bytes n b k.io.memory
unfolding enqueue_bytes
bytes-enqueue_bytes p b n k =
    let x : Pipe = record (pipe_of k p) { bytes = bytes_of k p ++ load_bytes n b k.io.memory } in
    ap (λ (y : Pipe). y.bytes) (index-insert no_pipe p x k.io.pipes p)
    ∙ ap (λ c. (if c then x else pipe_of k p).bytes) (==_refl p)

-- What a writer leaves where `t` is the first reader that waits.
pub record Wakes (p b n t : ℕ) (ts : List ℕ) (k l : Kernel) : Type 0 where
  pub bytes_now : bytes_of l p ≡ bytes_of k p ++ load_bytes n b k.io.memory
  pub readers_now : (cond_of l (pipe_of k p).cond_que).waiting ≡ ts
  pub others_woken : List ℕ
  pub ready_now : l.ready_list ≡ k.ready_list ++ (others_woken ++ (t ∷ []))
  pub running_now : l.running ≡ k.running

-- In a state of the invariant, a writer that runs again behind its `lock`, of an open pipe for whose
-- bytes `t` is the first reader that waits, goes on to its system call with its bytes behind those of
-- the pipe, and `t` is out of the queue and the last of the ready list: no wake-up is lost.
pub write-Wakes :
    (p b n t : ℕ) (ts : List ℕ) (k : Kernel) (f : List Frame)
    → Inv k
    → frames_of k k.running ≡ write_rest p b n ∷ f
    → contains p k.io.pipes ≡ true
    → (cond_of k (pipe_of k p).cond_que).waiting ≡ t ∷ ts
    → Returns (Wakes p b n t ts k) (go_on (write_rest p b n) (set_frames f k))
unfolding go_on write_on enqueue_bytes
write-Wakes p b n t ts k f inv stack there queue =
    let k' : Kernel = set_frames f k in
    let q : Kernel = enqueue_bytes p b n k' in
    let c : ℕ = (pipe_of k p).cond_que in
    let sound =
      enqueue_bytes-Sound 1 0 p b n k' (pop-Sound k (write_rest p b n) f inv.sound stack) in
    rw there (
      Returns-bind (unlock-Same 1 (pipe_of k p).mtx_que q sound (omega arith))
        λ j ((inner, keeps), contexts, conds).
          Returns-mono
            (notify_one-Woken 1 0 c t ts j inner (omega arith) (omega arith)
              (ap (λ x. (index (new_cond minus_one) c x).waiting) conds ∙ queue))
            λ l ((outer, more), woken).
              let (w, joined) = keeps.joins in
              record {
                bytes_now =
                    bytes-same q l p (more.io_same ∙ keeps.io_same) ∙ bytes-enqueue_bytes p b n k';
                readers_now = woken.waiting_now;
                others_woken = w;
                ready_now =
                    woken.ready_now
                    ∙ ap (λ x. x ++ (t ∷ [])) joined
                    ∙ append_assoc k.ready_list w (t ∷ []);
                running_now = more.running_same ∙ keeps.running_same;
              })
