-- ===== src/Kernel/Idle.antt =====
-- The idle thread of riscv-firmware/src/main.c: whoever else runs, it is ready.
use flitos.Base.{
  ℕ, ◌+◌, ◌%◌, ◌^◌, ◌<◌, ◌≤◌, ◌≡◌, ◌≢◌, refl, sym, ◌∙◌, ap, subst, arith, true, false, ◌==◌, ==→eq,
  ne→==, Bool, ==_refl, List, [], ◌∷◌, ◌++◌, length, if◌then◌else◌, ◌⊎◌, inl, inr, Bool-cases, ok,
  Returns, returns, Returns-bind, Returns-mono,
}
use flitos.Firmware.Ticks.{handle_time_interrupt-Live}
use flitos.Kernel.Io.{Io}
use flitos.Kernel.State.{Kernel, switched, handler, start, frames_of, set_frames, push_frame}
use flitos.Kernel.Scheduler.{
  yield_thread, enable_interrupts, after_switch, debug_context_switch_info, thread_switch,
  set_state, yield_to_next, in_interrupt_yield,
}
use flitos.Kernel.Pipes.{put_io}
use flitos.Kernel.Machine.{yields, call, go_on}
use flitos.Kernel.Interrupts.{Event, count_requests, interrupt}
use flitos.Kernel.Machine.Step.{Step, calls, goes_on, ticks}
use flitos.Kernel.Invariant.Census.{count, count-append}
use flitos.Kernel.Invariant.Sound.{Sound, Joins}
use flitos.Kernel.Invariant.Turn.{TurnOf, stays, hands}
use flitos.Kernel.Invariant.Leave.{yield_thread-Switched}
use flitos.Kernel.Invariant.Locks.{settle}
use flitos.Kernel.Invariant.Block.{Single, alone_of}
use flitos.Kernel.Invariant.Behind.{settles}
use flitos.Kernel.Invariant.Transfer.{put_io-Sound}
use flitos.Kernel.Invariant.Tick.{allow_preemption-Returns}
use flitos.Kernel.Invariant.Resume.{pop-Sound, enable_interrupts-After}
use flitos.Kernel.Invariant.Calls.{user-Sound, yields_alone}
use flitos.Kernel.Interrupted.{tick-Ticked}
use flitos.Kernel.Safety.{Inv, result_of, at_result}
use flitos.Kernel.Order.{step-TurnOf}
use flitos.Kernel.Reach.{Run, here, onward, Run-Inv, reach-Inv}
use flitos.Kernel.Boot.{boot}
use flitos.Kernel.Invariant.Switch.{push_frame-After}

-- The thread runs or is ready.
abbrev pub Around : ℕ → Kernel → Type 0
Around i k = (k.running ≡ i) ⊎ (0 < count i k.ready_list)

count-Joins : (i : ℕ) (xs ys : List ℕ) → Joins xs ys → count i xs ≤ count i ys
count-Joins i xs ys (w, e) = omega (arith, count-append i xs w, ap (count i) e)

count-first : (i q : ℕ) (ys : List ℕ) → 0 < count i (q ∷ ys) → (q ≡ i) ⊎ (0 < count i ys)
count-first i q ys some_place = elim (Bool-cases (q == i)) [
  | inl same ↦ inl (==→eq q i same)
  | inr other ↦ inr (ground (arith, some_place, other))
]

-- A thread that is ready leaves the ready list only to run.
ready-Around : (i : ℕ) (k l : Kernel) → TurnOf k l → 0 < count i k.ready_list → Around i l
ready-Around i k l (stays e j) h = inr (omega (arith, count-Joins i k.ready_list l.ready_list j, h))
ready-Around i k l (hands ne j) h =
    count-first i l.running l.ready_list
      (omega (arith, count-Joins i k.ready_list (l.running ∷ l.ready_list) j, h))

last-Around : (i : ℕ) (xs : List ℕ) → 0 < count i (xs ++ (i ∷ []))
last-Around i xs = ground (arith, count-append i xs (i ∷ []), ==_refl i)

yield_thread-Around :
    (k : Kernel) → Sound 1 0 k → Single k → Returns (Around k.running) (yield_thread k)
yield_thread-Around k s single = by k.ready_list refl
  where
    by : (ts : List ℕ) → k.ready_list ≡ ts → Returns (Around k.running) (yield_thread k)
    by [] e = Returns-mono (yields_alone k s e) λ l done. inl done.1
    by (t ∷ ts) e =
        Returns-mono
          (yield_thread-Switched 1 k s (omega arith) (alone_of k (single k.running))
            (omega (arith, ap length e)))
          λ l (outer, places, more, gone). inr (
            subst (λ ys. 0 < count k.running ys) (sym gone.ready_now)
              (last-Around k.running gone.rest))

yield_to_next-Around :
    (ts : List ℕ) (k : Kernel)
    → Single k
    → k.ready_list ≡ ts
    → Returns (Around k.running) (yield_to_next ts k)
unfolding yield_to_next debug_context_switch_info thread_switch set_state
yield_to_next-Around [] k single e = returns (inl refl)
yield_to_next-Around (next ∷ rest) k single e =
    let ne : k.running ≢ next = λ same. ground (arith, single k.running, e) in
    rw (ne→== k.running next ne) (returns (inr (last-Around k.running rest)))

in_interrupt_yield-Around :
    (k : Kernel) → Sound 4 0 k → Single k → Returns (Around k.running) (in_interrupt_yield k)
unfolding in_interrupt_yield
in_interrupt_yield-Around k s single =
    Returns-bind (allow_preemption-Returns k (s.present k.running (ground arith))) λ b _. by b
  where
    by : (b : Bool) → Returns (Around k.running) (if b then yield_to_next k.ready_list k else ok k)
    by true = yield_to_next-Around k.ready_list k single refl
    by false = returns (inl refl)

interrupt-Around :
    (e : Event) (k : Kernel)
    → Inv k
    → frames_of k k.running ≡ []
    → Returns (Around k.running) (interrupt e k)
unfolding interrupt count_requests
interrupt-Around e k inv user =
    let k₁ : Kernel = record k { nest_critical = (k.nest_critical + 1) % 2 ^ 32; mie = false } in
    let (first, before) =
      settle 3 0 k k₁ (user-Sound 3 k inv.sound user) refl refl refl refl refl (λ t. refl) in
    Returns-bind
      (handle_time_interrupt-Live e.garbage e.mcause k.io.call_back_cnt k.io.handlers inv.live)
      λ r (list, flag).
        let i : Io = record (k.io) {
          handlers = r.2;
          call_back_cnt = (k.io.call_back_cnt + length (r.1)) % 2 ^ 32;
          controller_status = e.controller;
        } in
        Returns-bind (tick-Ticked e (r.0) (put_io i k₁) (put_io-Sound 3 0 i k₁ first))
          λ k₃ (j, pipes, handlers, (inner, keeps)).
            let k₄ : Kernel = put_io (count_requests e k₃.io) k₃ in
            let (pushed, same) =
              push_frame-After 3 0 handler k₄ (put_io-Sound 3 0 _ k₃ inner) (omega arith) in
            Returns-mono
              (in_interrupt_yield-Around (push_frame handler k₄) pushed
                (λ t. omega (arith, keeps.census_same t, inv.single t)))
              λ l around. subst (λ u. Around u l) keeps.running_same around

-- What the idle thread does: its loop yields at most; it is interrupted, and goes on.
abbrev pub Loops : {k l : Kernel} → Step k l → Type 0
Loops (calls yields e run) = Unit {0}
Loops (goes_on switched fs e run) = Unit {0}
Loops (goes_on handler fs e run) = Unit {0}
Loops (goes_on start fs e run) = Unit {0}
Loops (ticks d e on run) = Unit {0}
Loops s = ⊥

running_of_ok : (k l d : Kernel) → ok k ≡ ok l → l.running ≡ k.running
unfolding result_of
running_of_ok k l d run = ap (λ o. (result_of o d).running) (sym run)

own-Around : (k l : Kernel) → Inv k → (s : Step k l) → Loops s → Around k.running l
unfolding go_on call after_switch enable_interrupts
own-Around k l inv (calls yields e run) loops =
    at_result (yield_thread k) l (yield_thread-Around k (user-Sound 1 k inv.sound e) inv.single) run
own-Around k l inv (goes_on switched fs e run) loops =
    let k' : Kernel = set_frames fs k in
    let (inner, keeps) = enable_interrupts-After 3 1 k' (pop-Sound k switched fs inv.sound e) in
    let (done, more) =
      at_result (after_switch k') l
        (settles 3 0 (enable_interrupts k') inner (omega arith) (omega arith)) run in
    inl (more.running_same ∙ keeps.running_same)
own-Around k l inv (goes_on handler fs e run) loops = inl (running_of_ok _ l k run)
own-Around k l inv (goes_on start fs e run) loops = inl (running_of_ok _ l k run)
own-Around k l inv (ticks d e on run) loops =
    at_result (interrupt d k) l (interrupt-Around d k inv e) run
own-Around k l inv s loops = absurd loops

-- The thread `i` does nothing else in the run.
abbrev pub OnlyLoops : {k l : Kernel} → ℕ → Run k l → Type 0
OnlyLoops i here = Unit {0}
OnlyLoops i (onward {j} before s a) = OnlyLoops i before × (j.running ≡ i → Loops s)

Run-Around :
    (i : ℕ) (k l : Kernel) → Inv k → Around i k → (run : Run k l) → OnlyLoops i run → Around i l
Run-Around i k l inv around here only = around
Run-Around i k l inv around (onward {j} before s a) (only, own) =
    let there : Inv j = (Run-Inv k j inv before).0 in
    elim (Run-Around i k j inv around before only) [
      | inl runs ↦ subst (λ u. Around u l) runs (own-Around j l there s (own runs))
      | inr ready ↦ ready-Around i j l (step-TurnOf j l there s a) ready
    ]

some_ready : (i : ℕ) (xs : List ℕ) → 0 < count i xs → 0 < length xs
some_ready i [] h = absurd (omega arith)
some_ready i (x ∷ xs) h = omega arith

-- Over any run of allowed steps from `main` in which the first thread, the idle one, does nothing but
-- yield, be interrupted and go on: whenever another thread runs, the idle one is in the ready list. So
-- a thread that blocks or ends always finds another one ready, as `Allowed` wants it of such a step.
pub reach-idle :
    (k l : Kernel)
    → boot ≡ ok k
    → (run : Run k l) → OnlyLoops k.running run
    → l.running ≢ k.running
    → (0 < count k.running l.ready_list) × (0 < length l.ready_list)
reach-idle k l booted run only other =
    let inv : Inv k = (reach-Inv k k booted here).0 in
    elim (Run-Around k.running k l inv (inl refl) run only) [
      | inl same ↦ absurd (other same)
      | inr ready ↦ (ready, some_ready k.running l.ready_list ready)
    ]
