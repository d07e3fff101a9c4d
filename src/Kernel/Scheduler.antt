-- ===== src/Kernel/Scheduler.antt =====
-- `ThreadScheduler` of cs251_scheduler.h and the interrupt nesting of utils.c. Each function is the
-- part of the source's that runs before control leaves the thread.
use flitos.Base.{
  ℕ, ◌+◌, ◌-◌, ◌%◌, ◌^◌, Bool, true, false, not, List, [], ◌∷◌, ◌++◌, ltb, ◌==◌, if◌then◌else◌,
  contains, Outcome, ok, hang, ◌>>=◌, ◌>>◌, assert_that,
}
use flitos.Kernel.State.{
  ThreadState, ready, running, waiting, finished, unknown, Tcb, switched, Kernel, above,
  non_negative, tcb_of, put_tcb, put_context, push_frame,
}

-- utils.c. `isCriticalBound` sets a negative count to 0, and tests whether it is 0.
unfoldable pub critical_count : ℕ → ℕ
critical_count n = if non_negative n then n else 0

unfoldable pub enable_interrupts : Kernel → Kernel
unfolding critical_count
enable_interrupts k =
    let n = critical_count ((k.nest_critical + 2 ^ 32 - 1) % 2 ^ 32) in
    record k { nest_critical = n; mie = if n == 0 then true else k.mie }

unfoldable pub disable_interrupts : Kernel → Kernel
unfolding critical_count
disable_interrupts k =
    let n = critical_count k.nest_critical in
    record k { nest_critical = (n + 1) % 2 ^ 32; mie = if n == 0 then false else k.mie }

-- `ThreadControlBlock::setPreemption`: the assertion fails above 1, and then never returns.
unfoldable pub tcb_set_preemption : Bool → Tcb → Outcome Tcb
tcb_set_preemption on b =
    let n = if on then (b.preemption + 1) % 2 ^ 32 else (b.preemption + 2 ^ 32 - 1) % 2 ^ 32 in
    if above 1 n then hang else ok (record b { preemption = n })

-- Of the running thread.
unfoldable pub set_preemption : Bool → Kernel → Outcome Kernel
set_preemption on k = do b ← tcb_set_preemption on (tcb_of k k.running); ok (put_tcb k.running b k)

abbrev pub is_nil {ℓ} : {A : Type ℓ} → List A → Bool
is_nil [] = true
is_nil (x ∷ xs) = false

-- `at` never returns where the running thread has no entry.
unfoldable pub allow_preemption : Kernel → Outcome Bool
allow_preemption k =
    if is_nil k.tcbs
    then ok false
    else (if contains k.running k.tcbs then ok (above 0 (tcb_of k k.running).preemption) else hang)

unfoldable pub set_state : ℕ → ThreadState → Kernel → Kernel
set_state t s k = put_tcb t (record (tcb_of k t) { state = s }) k

-- `thread_switch`, that is `context_switch` of context_switch.s: the current thread keeps its stack
-- and its `mstatus`, and the next one goes on with its own.
unfoldable pub thread_switch : ℕ → ℕ → Kernel → Kernel
thread_switch curr next k =
    let k' = put_context curr (record (k.contexts curr) { saved_mie = k.mie }) k in
    record k' { mie = (k'.contexts next).saved_mie }

-- The list that takes the thread that leaves.
unfoldable pub park : ThreadState → ℕ → Kernel → Kernel
park ready t k = record k { ready_list = k.ready_list ++ (t ∷ []) }
park finished t k = record k { finished_list = k.finished_list ++ (t ∷ []) }
park s t k = k

-- The assertions of `debugContextSwitchInfo`: it prints, and checks.
unfoldable pub debug_context_switch_info : ℕ → ℕ → Bool → Kernel → Outcome (Unit {0})
debug_context_switch_info curr next preemptive k = do
  assert_that (not (curr == next))
  allowed ← if preemptive then ok false else allow_preemption k
  assert_that (not allowed)

-- The body of `switchCurrentThreadTo` with the ready list taken apart. What follows `thread_switch`
-- stays on the stack.
unfoldable pub switch_to_next : ThreadState → ℕ → List ℕ → Kernel → Outcome Kernel
switch_to_next s next rest k = do
  let curr = k.running
  assert_that (not (curr == next))
  let k₁ = record k { ready_list = rest }
  let k₂ = set_state next running (set_state curr s k₁)
  let k₃ = park s curr k₂
  debug_context_switch_info curr next false k₃
  let k₄ = record (disable_interrupts (push_frame switched k₃)) { running = next }
  ok (thread_switch curr next k₄)

-- With nobody ready it goes on with the same thread.
unfoldable pub switch_ready : ThreadState → List ℕ → Kernel → Outcome Kernel
switch_ready s [] k = set_preemption true k
switch_ready s (next ∷ rest) k = switch_to_next s next rest k

abbrev pub switchable : ThreadState → Bool
switchable ready = true
switchable waiting = true
switchable finished = true
switchable s = false

unfoldable pub switch_current_thread_to : ThreadState → Kernel → Outcome Kernel
switch_current_thread_to s k = do
  k₁ ← set_preemption false k
  if switchable s then switch_ready s k₁.ready_list k₁ else set_preemption true k₁

-- `switchCurrentThreadTo` behind `thread_switch`, in the thread that is resumed.
unfoldable pub after_switch : Kernel → Outcome Kernel
after_switch k = set_preemption true (enable_interrupts k)

unfoldable pub yield_thread : Kernel → Outcome Kernel
yield_thread k = switch_current_thread_to ready k

unfoldable pub suspend : Kernel → Outcome Kernel
suspend k = switch_current_thread_to waiting k

unfoldable pub exit : Kernel → Outcome Kernel
exit k = switch_current_thread_to finished k

unfoldable pub resume : ℕ → Kernel → Kernel
resume t k =
    if contains t k.tcbs
    then record (set_state t ready k) { ready_list = k.ready_list ++ (t ∷ []) }
    else k

-- `thread_id_t` is compared as `size_t`.
unfoldable pub thread_state : ℕ → Kernel → ThreadState
thread_state t k =
    if ltb k.thread_counter t
    then unknown
    else (if contains t k.tcbs then (tcb_of k t).state else finished)

-- `inInterruptYield`.
unfoldable pub yield_to_next : List ℕ → Kernel → Outcome Kernel
yield_to_next [] k = ok k
yield_to_next (next ∷ rest) k = do
  let curr = k.running
  let k₁ = set_state next running (set_state curr ready (record k { ready_list = rest }))
  let k₂ = record k₁ { ready_list = k₁.ready_list ++ (curr ∷ []) }
  debug_context_switch_info curr next true k₂
  ok (thread_switch curr next (record k₂ { running = next }))

unfoldable pub in_interrupt_yield : Kernel → Outcome Kernel
in_interrupt_yield k = do
  allowed ← allow_preemption k
  if allowed then yield_to_next k.ready_list k else ok k
