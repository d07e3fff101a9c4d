-- ===== src/Kernel/Io.antt =====
-- What the system calls of riscv-firmware/src/startup.c share with the kernel beside threads: the
-- pipes of cs251_pipe.h over the queue of cs251_thread_safe_queue.h, the variables that the calls
-- read, and the memory.
use flitos.Base.{ℕ, List, Table}
use flitos.Firmware.Handlers.{SList}
use flitos.Firmware.Memory.{Bytes}

-- `PipeInternal`, that is its `ThreadSafeQueue<uint8_t>`. The deque is the list of its elements,
-- oldest first; that it behaves as one is shown in Containers/Deque.
pub record Pipe : Type 0 where
  pub mtx_que : ℕ
  pub cond_que : ℕ
  pub bytes : List ℕ

-- `PipeFactory` is `pipe_seq` and `pipes`; `mtx_allocator` is `g_mtx_allocator`,
-- `time_compare` the 64-bit register of the timer.
pub record Io : Type 0 where
  pub memory : Bytes
  pub global : ℕ
  pub vip_seq : ℕ
  pub cmd_seq : ℕ
  pub aaa : ℕ
  pub handlers : SList
  pub pipe_seq : ℕ
  pub pipes : Table Pipe
  pub mtx_allocator : ℕ
  pub controller_status : ℕ
  pub call_back_cnt : ℕ
  pub time_compare : ℕ
