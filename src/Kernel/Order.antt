-- ===== src/Kernel/Order.antt =====
-- The order in which ready threads run, over any run of the kernel.
use flitos.Base.{
  ℕ, ◌≡◌, refl, sym, ◌∙◌, ap, subst, ne→==, eq→==, ◌==◌, List, [], ◌∷◌, ◌++◌, if◌then◌else◌,
  append_assoc, inl, inr, Bool-cases,
}
use flitos.Kernel.State.{Frame, read_loop, Kernel, set_frames}
use flitos.Kernel.Scheduler.{is_nil}
use flitos.Kernel.Pipes.{pipe_of, enqueue_bytes, dequeue_bytes, set_ret}
use flitos.Kernel.Machine.{call, go_on}
use flitos.Kernel.Interrupts.{interrupt}
use flitos.Kernel.SystemCalls.{c_system_call}
use flitos.Kernel.Machine.Step.{Step, calls, goes_on, serves, ticks}
use flitos.Kernel.Invariant.Sound.{Joins, Joins-same}
use flitos.Kernel.Invariant.Turn.{Turn, TurnOf, stays, hands}
use flitos.Kernel.Invariant.Transfer.{stage}
use flitos.Kernel.Invariant.Resume.{pop-Sound, go_on-Moves}
use flitos.Kernel.Invariant.Calls.{user-Sound}
use flitos.Kernel.Interrupted.{interrupt-Serves}
use flitos.Kernel.AllCalls.{call-Lands}
use flitos.Kernel.AllServes.{system_call-Serves}
use flitos.Kernel.Safety.{Inv, Allowed, at_result}
use flitos.Kernel.Reach.{Run, here, onward, Run-Inv}

-- The thread that a step gives the processor to, if it is another one.
abbrev pub given_to : ℕ → ℕ → List ℕ
given_to r q = if r == q then [] else q ∷ []

Turn-Joins : (r q : ℕ) (xs ys : List ℕ) → Turn r xs q ys → Joins xs (given_to r q ++ ys)
Turn-Joins r q xs ys (stays e j) = rw (eq→== r q (sym e)) j
Turn-Joins r q xs ys (hands ne j) = rw (ne→== r q (λ e. ne (sym e))) j

stage-TurnOf : (f : Frame) (k l : Kernel) → TurnOf (stage f k) l → TurnOf k l
unfolding stage enqueue_bytes dequeue_bytes set_ret
stage-TurnOf (read_loop p b n) k l t = elim (Bool-cases (is_nil (pipe_of k p).bytes)) [
  | inl empty ↦ subst (λ c. TurnOf (if c then k else dequeue_bytes p b n k) l) empty t
  | inr some ↦ subst (λ c. TurnOf (if c then k else dequeue_bytes p b n k) l) some t
]
stage-TurnOf f k l t = t

pub step-TurnOf : (k l : Kernel) → Inv k → (s : Step k l) → Allowed s → TurnOf k l
step-TurnOf k l inv (calls c e run) a =
    let (inner, counts, io, turn) =
      at_result (call c k) l (call-Lands c k (user-Sound 1 k inv.sound e) inv.single a) run in
    turn
step-TurnOf k l inv (serves o a0 a1 a2 n e run) a =
    (at_result (c_system_call o a0 a1 a2 n k) l
      (system_call-Serves o a0 a1 a2 n k (user-Sound 0 k inv.sound e) inv.single a inv.live)
      run).turn
step-TurnOf k l inv (goes_on f fs e run) a =
    let k' : Kernel = set_frames fs k in
    let moves =
      at_result (go_on f k') l (go_on-Moves f k' (pop-Sound k f fs inv.sound e) a inv.single) run in
    stage-TurnOf f k' l moves.turn
step-TurnOf k l inv (ticks d e on run) a =
    (at_result (interrupt d k) l
      (interrupt-Serves d k (user-Sound 3 k inv.sound e) inv.single inv.live) run).turn

-- The threads that got the processor during a run, the first one first.
abbrev pub ran_in : {k l : Kernel} → Run k l → List ℕ
ran_in here = []
ran_in {l = l} (onward {j} before s a) = ran_in before ++ given_to j.running l.running

-- Over any run of allowed steps (see `Allowed`), the list of the threads that get the processor, in
-- their order, and then of those that are ready at the end, begins with the list of those that were
-- ready at the start: whatever the threads do, no later one overtakes them, they keep their order,
-- and none of them leaves the ready list but to run.
pub Run-Joins :
    (k l : Kernel)
    → Inv k
    → (run : Run k l) → (joined : List ℕ) × (ran_in run ++ l.ready_list ≡ k.ready_list ++ joined)
Run-Joins k l inv here = Joins-same _ _ refl
Run-Joins k l inv (onward {j} before s a) =
    let (w, e) = Run-Joins k j inv before in
    let (v, f) =
      Turn-Joins j.running l.running j.ready_list l.ready_list
        (step-TurnOf j l ((Run-Inv k j inv before).0) s a) in
    (
      w ++ v,
      append_assoc (ran_in before) (given_to j.running l.running) l.ready_list
          ∙ ap (λ xs. ran_in before ++ xs) f
          ∙ sym (append_assoc (ran_in before) j.ready_list v)
          ∙ ap (λ xs. xs ++ v) e
          ∙ append_assoc k.ready_list w v,
    )
