-- ===== src/Tests/SwitchRun.antt =====
-- Two threads and a new one on a memory of zeros.
use flitos.Base.{ℕ, ◌≡◌, refl, arith}
use flitos.Kernel.Context.{
  Words, Cpu, context_switch, saved_context, init_stack, push_dummy_switch_frame,
}
use flitos.Kernel.Context.Switches.{ApartFrom, Starts, frame_of, switch-back, init_stack-Starts}

abbrev zeros : Words
zeros = λ a. 0

-- A thread with its stack pointer `s`, whose entry keeps it at `field`, before a switch to `next`.
abbrev thread : ℕ → ℕ → ℕ → Cpu
thread s field next = record {
  pc = 100;
  ra = 104;
  sp = s;
  gp = 1;
  tp = 2;
  t0 = 3;
  t1 = 4;
  t2 = 5;
  s0 = 6;
  s1 = 7;
  a0 = field;
  a1 = next;
  a2 = 8;
  a3 = 9;
  a4 = 10;
  a5 = 11;
  mepc = 12;
  mcause = 13;
  mstatus = 14;
}

abbrev first : Cpu
first = thread 8192 400 16312

abbrev second : Cpu
second = thread 16384 404 8120

second-ApartFrom : ApartFrom (frame_of first) second
second-ApartFrom = (λ i j h g e. omega arith, λ i h e. omega arith)

first_switched : Words
first_switched = (context_switch first zeros).1

switch-back_example : (context_switch second first_switched).0 ≡ record first { pc = 104 }
unfolding first_switched context_switch saved_context
switch-back_example =
    switch-back first second zeros first_switched (omega arith) (λ i h e. omega arith) refl
      (λ i h. refl) second-ApartFrom

abbrev to_new : Cpu
to_new = thread 8192 400 69556

unfoldable with_stack : Words
with_stack = (init_stack 500 1 600 700 800 65536 zeros).1

init_stack-Starts_example : Starts 500 1 600 700 800 65536 ((context_switch to_new with_stack).0)
unfolding with_stack init_stack push_dummy_switch_frame
init_stack-Starts_example =
    init_stack-Starts 500 1 600 700 800 65536 to_new zeros with_stack (omega arith) refl
      (λ i h. refl) (λ i j h g e. omega arith, λ i h e. omega arith)
