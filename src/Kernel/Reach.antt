-- ===== src/Kernel/Reach.antt =====
-- The states that the kernel reaches from `main`.
use flitos.Base.{[], total, ℕ, ◌+◌, ◌≤◌, ◌≡◌, arith, contains, index, insert, ok, Returns, returns}
use flitos.Kernel.State.{tcb_of, frames_of, Kernel}
use flitos.Kernel.Scheduler.{
  set_preemption, tcb_set_preemption, critical_count, disable_interrupts, set_state,
}
use flitos.Kernel.Sync.{create_mutex, create_cond, create_thread}
use flitos.Kernel.Machine.{launch, launch_first_task}
use flitos.Kernel.Machine.Step.{Step}
use flitos.Kernel.Boot.{make_timer, main, boot}
use flitos.Kernel.Invariant.Census.{census, hit}
use flitos.Kernel.Safety.{user-preemption, at_result, Inv, Allowed, step-Inv}

-- Steps one behind the other, each of them allowed.
pub data Run (k : Kernel) : Kernel → Type 0 where
  here : Run k k
  onward : {j l : Kernel} → Run k j → (s : Step j l) → Allowed s → Run k l

two_places : (t : ℕ) → hit t 1 + (hit t 2 + 0) + 0 + 0 + 0 ≤ 1
two_places t = ground arith

boot-Inv : Returns Inv boot
unfolding boot main make_timer create_mutex create_cond create_thread set_preemption
    tcb_set_preemption disable_interrupts critical_count launch_first_task launch set_state index
    insert contains total
boot-Inv = returns (record {
  sound = record {
    low = λ t. ground arith;
    even = λ t. ground arith;
    shape = λ t. ground arith;
    present = λ t h. ground arith;
  };
  single = λ t. two_places t;
  live = tt;
})

pub Run-Inv : (k l : Kernel) → Inv k → Run k l → Inv l × ((t : ℕ) → census t k ≤ census t l)
Run-Inv k l inv here = (inv, λ t. omega arith)
Run-Inv k l inv (onward {j} before s p) =
    let (there, more) = Run-Inv k j inv before in
    let (done, counts) = step-Inv j l there s p in (done, λ t. omega (arith, more t, counts t))

-- Every state that allowed steps (`Allowed`) reach from `main` has the invariant: the preemption
-- counts are balanced, no thread is in two places, and the list of handlers was not freed. No thread
-- that `main` made is lost. A step is allowed where the ids that it gives are new, a `join` is of an
-- id that was given, a transfer goes on in a pipe that is open, what a system call destroys has
-- neither the first nor the last id of its map, nobody waits in a mutex or a condition variable that
-- it removes, and, where the step may block its thread or end it, another thread is ready.
pub reach-Inv : (k l : Kernel) → boot ≡ ok k → Run k l → Inv l × ((t : ℕ) → census t k ≤ census t l)
reach-Inv k l start run = Run-Inv k l (at_result boot k boot-Inv start) run

-- In every state that allowed steps reach from `main`, a thread in its own code has the preemption
-- count 1: every `setPreemption(false)` of the kernel has been undone.
pub reach-preemption :
    (k l : Kernel)
    → boot ≡ ok k
    → Run k l
    → frames_of l l.running ≡ []
    → (tcb_of l l.running).preemption ≡ 1
reach-preemption k l start run user = user-preemption l ((reach-Inv k l start run).0) user
