-- ===== src/Kernel/SystemCalls.antt =====
-- `c_system_call` of riscv-firmware/src/startup.c: the trap, the choice of the call, and what each
-- call does up to where its thread may leave.
use flitos.Base.{ℕ, ◌+◌, ◌%◌, ◌^◌, Bool, true, false, ◌==◌, if◌then◌else◌, Outcome, ok, ◌>>=◌}
use flitos.Firmware.Handlers.{register_handler}
use flitos.Firmware.Memory.{write_target_mem, write_target}
use flitos.Kernel.State.{served, malloc_rest, free_rest, Kernel, minus_one, push_frame}
use flitos.Kernel.Scheduler.{in_interrupt_yield}
use flitos.Kernel.Sync.{lock, create_mutex, create_cond, destroy_mutex, destroy_cond, create_thread}
use flitos.Kernel.Pipes.{
  put_io, open_pipe, close_pipe, write_pipe, read_pipe, set_ret, allocator_mutex_instance,
}
use flitos.Kernel.Machine.{
  Call, locks, unlocks, joins, sleeps, notifies_one, notifies_all, waits, call,
}

-- What the code outside gives to a call: the pointer that `malloc` returns, what the memory holds
-- that `init_list` gets, the register of the controller, `gp`, and the addresses of the five
-- functions that `hookFunctionPointer` knows.
pub record Outside : Type 0 where
  pub pointer : ℕ
  pub garbage : ℕ
  pub controller : ℕ
  pub gp : ℕ
  pub address : ℕ → ℕ

-- The branches of `c_system_call`, with their arguments.
pub data SystemCall : Type 0 where
  reads_global reads_controller reads_vip_seq reads_cmd_seq reads_gp : SystemCall
  adds_thread gives_way adds_mutex adds_cond opens_pipe no_call : SystemCall
  adds_handler hooks removes_mutex removes_cond closes_pipe allocates frees : ℕ → SystemCall
  writes_word : ℕ → ℕ → SystemCall
  writes_memory reads_pipe writes_pipe : ℕ → ℕ → ℕ → SystemCall
  performs : Call → SystemCall

-- Numbers that no branch tests for do nothing. The threads' functions are not read.
unfoldable pub system_call_of : ℕ → ℕ → ℕ → ℕ → SystemCall
system_call_of a0 a1 a2 n =
    if n == 0
    then reads_global
    else if n == 1
    then reads_controller
    else if n == 2
    then reads_vip_seq
    else if n == 5
    then adds_handler a0
    else if n == 6
    then writes_memory a0 a1 a2
    else if n == 7
    then writes_word a0 a1
    else if n == 8
    then hooks a0
    else if n == 9
    then reads_cmd_seq
    else if n == 10
    then adds_thread
    else if n == 11
    then gives_way
    else if n == 12
    then reads_gp
    else if n == 13
    then adds_mutex
    else if n == 14
    then removes_mutex a0
    else if n == 15
    then performs (locks a0)
    else if n == 16
    then performs (unlocks a0)
    else if n == 17
    then performs (joins a0)
    else if n == 18
    then performs (sleeps a0)
    else if n == 19
    then adds_cond
    else if n == 20
    then removes_cond a0
    else if n == 21
    then performs (notifies_one a0)
    else if n == 22
    then performs (notifies_all a0)
    else if n == 23
    then performs (waits a0 a1)
    else if n == 24
    then opens_pipe
    else if n == 25
    then closes_pipe a0
    else if n == 26
    then reads_pipe a0 a1 a2
    else if n == 27
    then writes_pipe a0 a1 a2
    else if n == 28
    then allocates a0
    else if n == 29
    then frees a0
    else no_call

unfoldable pub hook_function_pointer : Outside → ℕ → ℕ
hook_function_pointer o id =
    if id == 1
    then o.address 1
    else if id == 2
    then o.address 2
    else if id == 3
    then o.address 3
    else if id == 4
    then o.address 4
    else if id == 5
    then o.address 5
    else 0

-- The trap turns interrupts off, and `ret` starts as -1.
unfoldable pub enter : Kernel → Kernel
enter k =
    let k₁ = push_frame (served minus_one k.mie) k in
    record k₁ { nest_critical = (k.nest_critical + 1) % 2 ^ 32; mie = false }

-- `lock(allocatorMutexInstance())` and what follows
unfoldable pub heap_call : Outside → Bool → Kernel → Outcome Kernel
heap_call o gives k =
    let (m, k₁) = allocator_mutex_instance k in
    lock m (push_frame (if gives then malloc_rest m o.pointer else free_rest m) k₁)

unfoldable pub dispatch : Outside → SystemCall → Kernel → Outcome Kernel
dispatch o reads_global k = ok (set_ret k.io.global k)
dispatch o reads_controller k = ok (set_ret o.controller k)
dispatch o reads_vip_seq k = ok (set_ret k.io.vip_seq k)
dispatch o reads_cmd_seq k = ok (set_ret k.io.cmd_seq k)
dispatch o reads_gp k = ok (set_ret o.gp k)
dispatch o (adds_handler f) k = do
  hs ← register_handler o.garbage k.io.handlers f
  let count = (k.io.aaa + 1) % 2 ^ 32
  ok (set_ret 5 (put_io (record (k.io) { aaa = count; handlers = hs }) k))
dispatch o (writes_memory h s n) k =
    let (r, m) = write_target_mem h s n k.io.memory in
    ok (set_ret r (put_io (record (k.io) { memory = m }) k))
dispatch o (writes_word h v) k =
    let (r, m) = write_target h v k.io.memory in
    ok (set_ret r (put_io (record (k.io) { memory = m }) k))
dispatch o (hooks id) k = ok (set_ret (hook_function_pointer o id) k)
dispatch o adds_thread k = do r ← create_thread k; ok (set_ret (r.0) (r.1))
dispatch o gives_way k = in_interrupt_yield k
dispatch o adds_mutex k = ok (set_ret ((create_mutex k).0) ((create_mutex k).1))
dispatch o (removes_mutex m) k = destroy_mutex m k
dispatch o adds_cond k = ok (set_ret ((create_cond k).0) ((create_cond k).1))
dispatch o (removes_cond c) k = destroy_cond c k
dispatch o (performs c) k = call c k
dispatch o opens_pipe k = ok (set_ret ((open_pipe k).0) ((open_pipe k).1))
dispatch o (closes_pipe p) k = close_pipe p k
dispatch o (reads_pipe p b n) k = read_pipe p b n k
dispatch o (writes_pipe p b n) k = write_pipe p b n k
dispatch o (allocates n) k = heap_call o true k
dispatch o (frees a) k = heap_call o false k
dispatch o no_call k = ok k

unfoldable pub c_system_call : Outside → ℕ → ℕ → ℕ → ℕ → Kernel → Outcome Kernel
c_system_call o a0 a1 a2 n k = dispatch o (system_call_of a0 a1 a2 n) (enter k)
