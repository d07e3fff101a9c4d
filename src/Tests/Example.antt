-- ===== src/Tests/Example.antt =====
-- A state of the kernel in which threads are in all places: 1 runs, 3 is ready, 2 waits for the mutex
-- 1 that 3 holds, and 4 sleeps in the condition 1, for which `join` of 1 waits too; 1 holds
-- 2, and 5 waits for bytes of the pipe 2.
use flitos.Base.{
  ℕ, ◌+◌, false, ◌-◌, ◌%◌, ◌^◌, ◌≤◌, true, ◌==◌, arith, List, [], ◌∷◌, if◌then◌else◌, contains,
  index, total,
}
use flitos.Firmware.Handlers.{null}
use flitos.Kernel.Io.{Io}
use flitos.Kernel.State.{
  Kernel, Frame, switched, lock_rest, wait_rest, sleep_loop, read_loop, served, minus_one, waiting,
  ready, running,
}
use flitos.Kernel.Interrupts.{Event}
use flitos.Kernel.Invariant.Census.{census}
use flitos.Kernel.Invariant.Sound.{Sound}
use flitos.Kernel.Safety.{Inv}

abbrev stack_of : ℕ → List Frame
stack_of t =
    if t == 2
    then switched ∷ lock_rest ∷ []
    else (if t == 3
        then switched ∷ []
        else (if t == 4
            then switched ∷ wait_rest 6 ∷ sleep_loop 9 ∷ []
            else (if t == 5
                then switched ∷ wait_rest 12 ∷ read_loop 2 300 4 ∷ served minus_one true ∷ []
                else [])))

-- The pipe 1 holds two bytes, and 5 waits for bytes of the pipe 2.
abbrev busy_io : Io
busy_io = record {
  memory = λ a. a % 2 ^ 8;
  global = 42;
  vip_seq = 1;
  cmd_seq = 0;
  aaa = 0;
  handlers = null;
  pipe_seq = 2;
  pipes =
      (1, record { mtx_que = 9; cond_que = 4; bytes = 7 ∷ 8 ∷ [] })
      ∷ (2, record { mtx_que = 12; cond_que = 5; bytes = [] })
      ∷ [];
  mtx_allocator = 2 ^ 32 - 1;
  controller_status = 0;
  call_back_cnt = 0;
  time_compare = 100;
}

abbrev pub busy : Kernel
busy = record {
  running = 1;
  thread_counter = 5;
  ready_list = 3 ∷ [];
  finished_list = [];
  tcbs =
      (1, record { preemption = 1; state = running; mtx_for_join = 7; cond_for_join = 1 })
      ∷ (
        2,
        record { preemption = 2 ^ 32 - 1; state = waiting; mtx_for_join = 8; cond_for_join = 2 },
      )
      ∷ (3, record { preemption = 0; state = ready; mtx_for_join = 9; cond_for_join = 3 })
      ∷ (
        4,
        record { preemption = 2 ^ 32 - 1; state = waiting; mtx_for_join = 10; cond_for_join = 4 },
      )
      ∷ (
        5,
        record { preemption = 2 ^ 32 - 1; state = waiting; mtx_for_join = 11; cond_for_join = 6 },
      )
      ∷ [];
  mutex_seq = 12;
  mutexes =
      (1, record { owner = 3; waiting = 2 ∷ [] }) ∷ (2, record { owner = 1; waiting = [] }) ∷ [];
  cond_seq = 6;
  conds =
      (1, record { cond_id = 1; waiting = 4 ∷ [] })
      ∷ (5, record { cond_id = 5; waiting = 5 ∷ [] })
      ∷ [];
  systick = 5;
  mtx_for_sleep = 6;
  cond_for_sleep = 1;
  nest_critical = 0;
  mie = true;
  contexts = λ u. record { frames = stack_of u; saved_mie = true; a0 = 0 };
  io = busy_io;
}

-- A timer interrupt while a video interrupt is pending.
abbrev pub tick : Event
tick = record {
  mcause = 2 ^ 31 + 7;
  controller = 3;
  video_pending = true;
  command_pending = false;
  time = 250;
  garbage = 0;
}

busy-Sound : Sound 4 0 busy
unfolding index contains total
busy-Sound = record {
  low = λ t. ground arith;
  even = λ t. ground arith;
  shape = λ t. ground arith;
  present = λ t h. ground arith;
}

one_place : (t : ℕ) → census t busy ≤ 1
unfolding total
one_place t = ground arith

pub busy-Inv : Inv busy
busy-Inv = record { sound = busy-Sound; single = one_place; live = tt }
