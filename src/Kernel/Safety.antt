-- ===== src/Kernel/Safety.antt =====
-- The kernel as a whole: its invariant, what a step relies on, and the calls, frames and interrupts.
use flitos.Base.{
  ℕ, ◌+◌, ◌≡◌, refl, sym, ◌∙◌, ap, subst, arith, List, [], ◌∷◌, Outcome, ok, fault, hang, Returns,
  Returns-mono, Returns-value,
}
use flitos.Kernel.State.{Kernel, Frame, tcb_of, frames_of, set_frames}
use flitos.Kernel.Machine.{Call, creates, call, go_on}
use flitos.Kernel.Interrupts.{Event, interrupt}
use flitos.Kernel.SystemCalls.{
  Outside, SystemCall, adds_thread, performs, system_call_of, enter, c_system_call,
}
use flitos.Kernel.Machine.Step.{Step, calls, goes_on, serves, ticks}
use flitos.Kernel.Invariant.Debt.{debts}
use flitos.Kernel.Invariant.Census.{census}
use flitos.Kernel.Invariant.Sound.{Sound}
use flitos.Kernel.Invariant.Block.{Single}
use flitos.Kernel.Invariant.Resume.{Fine, pop-Sound, go_on-Moves}
use flitos.Kernel.Invariant.Calls.{user-Sound}
use flitos.Kernel.Interrupted.{interrupt-Serves}
use flitos.Firmware.Handlers.{Live}
use flitos.Kernel.Ready.{Live-same}
use flitos.Kernel.Invariant.Transfer.{stage, census-stage, handlers-stage}
use flitos.Kernel.AllCalls.{Proper, births, call-Lands}
use flitos.Kernel.Admitted.{Admitted, offspring}
use flitos.Kernel.AllServes.{system_call-Serves}

-- The preemption counts are balanced, no thread is in two places, and the list of handlers was not
-- freed.
pub record Inv (k : Kernel) : Type 0 where
  pub sound : Sound 4 0 k
  pub single : Single k
  pub live : Live k.io.handlers

-- What a step relies on: the ids that it gives are new, its `join` is of an id that was given, its
-- transfer goes on in a pipe that is open, what it destroys has neither the first nor the last id of
-- its map, nobody waits in a mutex or a condition variable that it removes, and, where it may block
-- its thread or end it, another thread is ready. The idle thread alone may yield, be interrupted and
-- go on.
abbrev pub Allowed : {k l : Kernel} → Step k l → Type 0
Allowed {k} (calls c e run) = Proper c k
Allowed {k} (goes_on f fs e run) = Fine f (set_frames fs k)
Allowed {k} (serves o a0 a1 a2 n e run) = Admitted (system_call_of a0 a1 a2 n) (enter k)
Allowed (ticks d e on run) = Unit {0}

abbrev pub made_by : {k l : Kernel} → Step k l → ℕ → ℕ
made_by {k} (calls c e run) t = births c k t
made_by (goes_on f fs e run) t = 0
made_by {k} (serves o a0 a1 a2 n e run) t = offspring (system_call_of a0 a1 a2 n) (enter k) t
made_by (ticks d e on run) t = 0

-- What `Returns` says of the result of a run.
unfoldable pub result_of : Outcome Kernel → Kernel → Kernel
result_of (ok l) d = l
result_of fault d = d
result_of hang d = d

pub at_result :
    {P : Kernel → Type 0} (m : Outcome Kernel) (l : Kernel) → Returns P m → m ≡ ok l → P l
unfolding result_of
at_result {P} m l r run =
    let (a, same, p) = Returns-value r in subst P (ap (λ o. result_of o l) (sym same ∙ run)) p

-- Everybody is where they were, new threads are somewhere, and the list of handlers is there.
abbrev Lasts : (ℕ → ℕ) → Kernel → Kernel → Type 0
Lasts more k l = Sound 4 0 l × ((t : ℕ) → census t l ≡ census t k + more t) × Live l.io.handlers

Live-stage :
    (f : Frame) (k l : Kernel) → l.io ≡ (stage f k).io → Live k.io.handlers → Live l.io.handlers
Live-stage f k l io h =
    Live-same (stage f k) l io (subst (λ hs. Live hs) (sym (handlers-stage f k)) h)

step-Lasts : (k l : Kernel) → Inv k → (s : Step k l) → Allowed s → Lasts (made_by s) k l
step-Lasts k l inv (calls c e run) p =
    let (inner, counts, io, turn) =
      at_result (call c k) l (call-Lands c k (user-Sound 1 k inv.sound e) inv.single p) run in
    (inner, counts, Live-same k l io inv.live)
step-Lasts k l inv (serves o a0 a1 a2 n e run) p =
    let done =
      at_result (c_system_call o a0 a1 a2 n k) l
        (system_call-Serves o a0 a1 a2 n k (user-Sound 0 k inv.sound e) inv.single p inv.live)
        run in
    (done.sound, done.counts, done.live inv.live)
step-Lasts k l inv (goes_on f fs e run) p =
    let k' : Kernel = set_frames fs k in
    let moves =
      at_result (go_on f k') l (go_on-Moves f k' (pop-Sound k f fs inv.sound e) p inv.single) run in
    (
      moves.sound,
      λ t. omega (arith, moves.census_same t, census-stage f k' t),
      Live-stage f k' l moves.io_same inv.live,
    )
step-Lasts k l inv (ticks d e on run) p =
    let done =
      at_result (interrupt d k) l
        (interrupt-Serves d k (user-Sound 3 k inv.sound e) inv.single inv.live) run in
    (done.sound, done.counts, done.live inv.live)

Single-births :
    (c : Call) (k l : Kernel)
    → Proper c k
    → Single k
    → ((t : ℕ) → census t l ≡ census t k + births c k t)
    → Single l
Single-births creates k l p one counts t = ground (arith, one t, counts t, p.0)
Single-births c k l p one counts t = omega (arith, one t, counts t)

Single-offspring :
    (r : SystemCall) (k l : Kernel)
    → Admitted r k
    → Single k
    → ((t : ℕ) → census t l ≡ census t k + offspring r k t)
    → Single l
Single-offspring adds_thread k l a one counts t = ground (arith, one t, counts t, a.0)
Single-offspring (performs c) k l a one counts t = Single-births c k l a one counts t
Single-offspring r k l a one counts t = omega (arith, one t, counts t)

census-enter : (k : Kernel) (t : ℕ) → census t (enter k) ≡ census t k
unfolding enter
census-enter k t = refl

Single-enter : (k : Kernel) → Single k → Single (enter k)
Single-enter k one t = omega (arith, one t, census-enter k t)

Single-step :
    (k l : Kernel)
    → Single k
    → (s : Step k l) → Allowed s
    → ((t : ℕ) → census t l ≡ census t k + made_by s t)
    → Single l
Single-step k l one (calls c e run) p counts = Single-births c k l p one counts
Single-step k l one (serves o a0 a1 a2 n e run) p counts =
    Single-offspring (system_call_of a0 a1 a2 n) (enter k) l p (Single-enter k one)
      λ t. omega (arith, counts t, census-enter k t)
Single-step k l one (goes_on f fs e run) p counts = λ t. omega (arith, one t, counts t)
Single-step k l one (ticks d e on run) p counts = λ t. omega (arith, one t, counts t)

-- An allowed step (see `Allowed`: among others, another thread is ready where the step may block its
-- thread or end it) leads from a state of the invariant to another one; each thread is in as many
-- places as before, and a thread that the step creates in one more.
pub step-Inv :
    (k l : Kernel)
    → Inv k
    → (s : Step k l) → Allowed s
    → Inv l × ((t : ℕ) → census t l ≡ census t k + made_by s t)
step-Inv k l inv s p =
    let (inner, counts, live) = step-Lasts k l inv s p in
    (record { sound = inner; single = Single-step k l inv.single s p counts; live = live }, counts)

-- In a state of the invariant, a call that a thread makes from its own code returns control, to it
-- or to another thread, with the invariant, and no assertion of the part that runs fails, under
-- these conditions: the ids that `create` gives are new; `join` is of an id that was given; and for
-- `lock`, `join`, `sleep`, `wait` and `thread_exit` another thread is ready. Of `join` and `sleep`
-- this is the part up to the end of their `lock`, of a call that blocks the part up to the switch;
-- `go_on-Returns` is about the rest.
pub call-Returns :
    (c : Call) (k : Kernel)
    → Inv k
    → frames_of k k.running ≡ []
    → Proper c k
    → Returns Inv (call c k)
call-Returns c k inv e p =
    Returns-mono (call-Lands c k (user-Sound 1 k inv.sound e) inv.single p)
      λ l (inner, counts, io, turn). record {
        sound = inner;
        single = Single-births c k l p inv.single counts;
        live = Live-same k l io inv.live;
      }

-- In a state of the invariant, a system call that a thread makes from its own code returns control,
-- to it or to another thread, with the invariant, and no assertion of the part that runs fails,
-- under these conditions: the ids that the call gives are new; what it destroys has neither the
-- first nor the last id of its map; nobody waits in a mutex or a condition variable that it removes;
-- `join` is of an id that was given; and where the call may block its thread or end it, another
-- thread is ready. What follows the first suspension or the first `lock` of a call is a frame, which
-- `go_on-Returns` is about.
pub system_call-Returns :
    (o : Outside) (a0 a1 a2 n : ℕ) (k : Kernel)
    → Inv k
    → frames_of k k.running ≡ []
    → Admitted (system_call_of a0 a1 a2 n) (enter k)
    → Returns Inv (c_system_call o a0 a1 a2 n k)
system_call-Returns o a0 a1 a2 n k inv e a =
    Returns-mono
      (system_call-Serves o a0 a1 a2 n k (user-Sound 0 k inv.sound e) inv.single a inv.live)
      λ l done. record {
        live = done.live inv.live;
        sound = done.sound;
        single =
            Single-offspring (system_call_of a0 a1 a2 n) (enter k) l a (Single-enter k inv.single)
              λ t. omega (arith, done.counts t, census-enter k t);
      }

-- In a state of the invariant, the topmost frame of the running thread, which is the next part of a
-- kernel call, runs to its end or to the next suspension with the invariant again, and no assertion
-- fails, under these conditions: the id of a `join` was given; the pipe of a transfer is open; and
-- where the frame may block its thread, another one is ready.
pub go_on-Returns :
    (f : Frame) (fs : List Frame) (k : Kernel)
    → Inv k
    → frames_of k k.running ≡ f ∷ fs
    → Fine f (set_frames fs k)
    → Returns Inv (go_on f (set_frames fs k))
go_on-Returns f fs k inv e p =
    let k' : Kernel = set_frames fs k in
    Returns-mono (go_on-Moves f k' (pop-Sound k f fs inv.sound e) p inv.single) λ l m. record {
      sound = m.sound;
      single = λ t. omega (arith, census-stage f k' t, inv.single t, m.census_same t);
      live = Live-stage f k' l m.io_same inv.live;
    }

-- An interrupt of a thread's own code, whatever its cause and whoever is ready, returns with the
-- invariant.
pub interrupt-Returns :
    (d : Event) (k : Kernel) → Inv k → frames_of k k.running ≡ [] → Returns Inv (interrupt d k)
interrupt-Returns d k inv e =
    Returns-mono (interrupt-Serves d k (user-Sound 3 k inv.sound e) inv.single inv.live) λ l done.
      record {
        sound = done.sound;
        single = λ t. omega (arith, inv.single t, done.counts t);
        live = done.live inv.live;
      }

-- Whenever a thread's own code runs, its preemption count is 1: every `setPreemption(false)` of the
-- kernel has been undone.
pub user-preemption :
    (k : Kernel) → Inv k → frames_of k k.running ≡ [] → (tcb_of k k.running).preemption ≡ 1
user-preemption k inv e =
    let low = inv.sound.low k.running in
    let even = inv.sound.even k.running in
    let paid : debts (frames_of k k.running) ≡ 0 = ap debts e in ground arith
