-- ===== src/Kernel/State.antt =====
-- The state of the kernel: cs251_scheduler.h, cs251_mutex.h, cs251_condition_variable.h,
-- cs251_timer.h, and the interrupt nesting of utils.c. An `int` is its 32-bit pattern: -1 is
-- 2^32 - 1. A queue of thread ids is the list of its elements, oldest first.
use flitos.Base.{
  ℕ, ◌-◌, ◌^◌, Bool, ◌&&◌, List, [], ◌∷◌, ltb, ◌==◌, if◌then◌else◌, Table, index, insert,
}
use flitos.Kernel.Io.{Io}

-- `enum ThreadState`
pub data ThreadState : Type 0 where
  init ready running waiting finished unknown : ThreadState

abbrev pub minus_one : ℕ
minus_one = 2 ^ 32 - 1

-- `x >= 0` and `x > k` of an `int`, for a small `k`
abbrev pub non_negative : ℕ → Bool
non_negative x = ltb x (2 ^ 31)

abbrev pub above : ℕ → ℕ → Bool
above k x = ltb k x && non_negative x

-- `ThreadControlBlock`; its stack is the thread's `Context` below.
pub record Tcb : Type 0 where
  pub preemption : ℕ
  pub state : ThreadState
  pub mtx_for_join : ℕ
  pub cond_for_join : ℕ

abbrev pub new_tcb : Tcb
new_tcb = record {
  preemption = 1;
  state = init;
  mtx_for_join = minus_one;
  cond_for_join = minus_one;
}

-- `MutexInternal`; `owner_` is -1 where it is not locked.
pub record Mutex : Type 0 where
  pub owner : ℕ
  pub waiting : List ℕ

abbrev pub new_mutex : Mutex
new_mutex = record { owner = minus_one; waiting = [] }

-- `ConditionVariableInternal`
pub record Cond : Type 0 where
  pub cond_id : ℕ
  pub waiting : List ℕ

abbrev pub new_cond : ℕ → Cond
new_cond id = record { cond_id = id; waiting = [] }

-- What a thread that is switched out has still to do, innermost call first:
-- `switched`, `switchCurrentThreadTo` behind `thread_switch`;
-- `lock_rest`, `MutexInternal::lock` behind `suspend`;
-- `wait_rest m`, `ConditionVariableInternal::wait(m)` behind `suspend`;
-- `join_check t m c` and `join_loop t m c`, `join(t)` before its assertion and at its loop, with the
-- mutex and the condition that it read; `sleep_loop w`, `sleep` at its loop;
-- `handler`, `c_interrupt_handler` behind `inInterruptYield`; `start`, `stub_wrapper`;
-- `served r on`, `c_system_call` behind its call, with its `ret` and the interrupt-enable bit that
-- the trap saved; `write_rest p b n` and `read_loop p b n`, `enqueue` and `dequeue` of a pipe behind
-- `lock`, for `n` bytes at `b`; `malloc_rest m r` and `free_rest m`, system calls 28 and 29 behind
-- `lock(m)`, where `malloc` gives `r`.
pub data Frame : Type 0 where
  switched lock_rest handler start : Frame
  wait_rest : ℕ → Frame
  join_check join_loop : ℕ → ℕ → ℕ → Frame
  sleep_loop free_rest : ℕ → Frame
  served : ℕ → Bool → Frame
  malloc_rest : ℕ → ℕ → Frame
  write_rest read_loop : ℕ → ℕ → ℕ → Frame

-- The stack of a thread, its register a0 where it is back from a system call and, while it is
-- switched out, the interrupt-enable bit of its `mstatus`.
pub record Context : Type 0 where
  pub frames : List Frame
  pub saved_mie : Bool
  pub a0 : ℕ

pub record Kernel : Type 0 where
  pub running : ℕ
  pub thread_counter : ℕ
  pub ready_list : List ℕ
  pub finished_list : List ℕ
  pub tcbs : Table Tcb
  pub mutex_seq : ℕ
  pub mutexes : Table Mutex
  pub cond_seq : ℕ
  pub conds : Table Cond
  pub systick : ℕ
  pub mtx_for_sleep : ℕ
  pub cond_for_sleep : ℕ
  pub nest_critical : ℕ
  pub mie : Bool
  pub contexts : ℕ → Context
  pub io : Io

-- Maps with the default that `operator []` inserts.
abbrev pub tcb_of : Kernel → ℕ → Tcb
tcb_of k t = index new_tcb t k.tcbs

abbrev pub mutex_of : Kernel → ℕ → Mutex
mutex_of k m = index new_mutex m k.mutexes

abbrev pub cond_of : Kernel → ℕ → Cond
cond_of k c = index (new_cond minus_one) c k.conds

abbrev pub frames_of : Kernel → ℕ → List Frame
frames_of k t = (k.contexts t).frames

abbrev pub put_tcb : ℕ → Tcb → Kernel → Kernel
put_tcb t b k = record k { tcbs = insert t b k.tcbs }

abbrev pub put_mutex : ℕ → Mutex → Kernel → Kernel
put_mutex m x k = record k { mutexes = insert m x k.mutexes }

abbrev pub put_cond : ℕ → Cond → Kernel → Kernel
put_cond c x k = record k { conds = insert c x k.conds }

abbrev pub put_context : ℕ → Context → Kernel → Kernel
put_context t c k = record k { contexts = λ u. if t == u then c else k.contexts u }

-- A call that the running thread makes leaves a frame.
abbrev pub push_frame : Frame → Kernel → Kernel
push_frame f k =
    put_context k.running (record (k.contexts k.running) { frames = f ∷ frames_of k k.running }) k

abbrev pub set_frames : List Frame → Kernel → Kernel
set_frames fs k = put_context k.running (record (k.contexts k.running) { frames = fs }) k
