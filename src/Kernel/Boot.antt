-- ===== src/Kernel/Boot.antt =====
-- The start of the kernel: `main` of riscv-firmware/src/main.c up to `startFirstTask`.
use flitos.Base.{◌-◌, ◌^◌, true, false, [], Outcome, ok, ◌>>=◌}
use flitos.Firmware.Handlers.{null}
use flitos.Kernel.Io.{Io}
use flitos.Kernel.State.{Kernel}
use flitos.Kernel.Scheduler.{disable_interrupts}
use flitos.Kernel.Sync.{create_mutex, create_cond, create_thread}
use flitos.Kernel.Machine.{launch_first_task}

-- The variables of main.c, before its first statement, and the compare register that `init` set; the
-- memory counts as zero.
abbrev pub initial_io : Io
initial_io = record {
  memory = λ a. 0;
  global = 42;
  vip_seq = 1;
  cmd_seq = 0;
  aaa = 0;
  handlers = null;
  pipe_seq = 0;
  pipes = [];
  mtx_allocator = 2 ^ 32 - 1;
  controller_status = 0;
  call_back_cnt = 0;
  time_compare = 1;
}

-- The kernel before its first call: `.bss` is zero, and `init` of startup.c enabled interrupts.
abbrev pub initial : Kernel
initial = record {
  running = 0;
  thread_counter = 0;
  ready_list = [];
  finished_list = [];
  tcbs = [];
  mutex_seq = 0;
  mutexes = [];
  cond_seq = 0;
  conds = [];
  systick = 0;
  mtx_for_sleep = 2 ^ 32 - 1;
  cond_for_sleep = 2 ^ 32 - 1;
  nest_critical = 0;
  mie = true;
  contexts = λ t. record { frames = []; saved_mie = false; a0 = 0 };
  io = initial_io;
}

-- `SleepTimer::SleepTimer`
unfoldable pub make_timer : Kernel → Kernel
make_timer k =
    let (m, k₁) = create_mutex k in
    let (c, k₂) = create_cond (record k₁ { mtx_for_sleep = m }) in record k₂ { cond_for_sleep = c }

-- `main`: an idle thread and one that waits for a cartridge.
unfoldable pub main : Kernel → Outcome Kernel
main k = do
  r ← create_thread (disable_interrupts k)
  s ← create_thread (r.1)
  ok (launch_first_task (s.1))

unfoldable pub boot : Outcome Kernel
boot = main (make_timer initial)
