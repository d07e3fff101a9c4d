-- ===== src/Kernel/Machine.antt =====
-- What runs when: a call from a thread's own code, the topmost frame of the running thread, or the
-- timer interrupt.
pub mod Step
use flitos.Base.{
  ℕ, ◌+◌, ◌-◌, ◌%◌, ◌^◌, Bool, true, false, not, List, [], ◌∷◌, contains, Outcome, ok, hang, ◌>>=◌,
  ◌>>◌, assert_that, if◌then◌else◌,
}
use flitos.Kernel.State.{
  Frame, switched, lock_rest, handler, start, wait_rest, join_check, join_loop, sleep_loop, served,
  write_rest, read_loop, malloc_rest, free_rest, Kernel, put_context, tcb_of, frames_of, push_frame,
  set_frames, running,
}
use flitos.Kernel.Scheduler.{
  set_preemption, set_state, enable_interrupts, after_switch, yield_thread, exit, thread_state,
  in_interrupt_yield,
}
use flitos.Kernel.Sync.{
  try_lock, lock, unlock, create_mutex, create_cond, wait, after_wait, notify_one, notify_all,
  create_thread, join, join_round, is_unknown, sleep, sleep_round, update_tick,
}
use flitos.Kernel.Pipes.{set_ret, write_on, read_on}

-- `mret` behind `c_system_call`: the processor's interrupt-enable bit is what it was before the trap.
unfoldable pub leave_system_call : ℕ → Bool → Kernel → Kernel
leave_system_call r on k =
    let k₁ = put_context k.running (record (k.contexts k.running) { a0 = r }) k in
    record k₁ { nest_critical = (k.nest_critical + 2 ^ 32 - 1) % 2 ^ 32; mie = on }

-- A thread's calls. `returns` and `exits` are the two that `stub_wrapper` makes behind `(*f)(arg)`,
-- where interrupts are on: the interrupt may come between them.
pub data Call : Type 0 where
  yields returns exits creates makes_mutex makes_cond : Call
  locks tries unlocks joins sleeps notifies_one notifies_all : ℕ → Call
  waits : ℕ → ℕ → Call

-- `stub_wrapper` behind the thread's function, before `thread_exit`: `at` of the running thread and
-- `notifyAll`.
unfoldable pub notify_joiners : Kernel → Outcome Kernel
notify_joiners k =
    assert_that (contains k.running k.tcbs) >> notify_all (tcb_of k k.running).cond_for_join k

unfoldable pub call : Call → Kernel → Outcome Kernel
call yields k = yield_thread k
call returns k = notify_joiners k
call exits k = exit k
call creates k = do r ← create_thread k; ok (r.1)
call makes_mutex k = ok ((create_mutex k).1)
call makes_cond k = ok ((create_cond k).1)
call (locks m) k = lock m k
call (tries m) k = do r ← try_lock m k; ok (r.1)
call (unlocks m) k = unlock m k
call (joins t) k = join t k
call (sleeps n) k = sleep n k
call (notifies_one c) k = notify_one c k
call (notifies_all c) k = notify_all c k
call (waits c m) k = wait c m k

-- The rest of a call, in the thread that runs; its frame is gone from the stack.
unfoldable pub go_on : Frame → Kernel → Outcome Kernel
go_on switched k = after_switch k
go_on lock_rest k = set_preemption true k
go_on (wait_rest m) k = after_wait m k
go_on (join_check t m c) k = assert_that (not (is_unknown (thread_state t k))) >> join_round t m c k
go_on (join_loop t m c) k = join_round t m c k
go_on (sleep_loop w) k = sleep_round w k
go_on handler k =
    ok (record k { nest_critical = (k.nest_critical + 2 ^ 32 - 1) % 2 ^ 32; mie = true })
go_on start k = ok (enable_interrupts k)
go_on (served r on) k = ok (leave_system_call r on k)
go_on (write_rest p b n) k = write_on p b n k
go_on (read_loop p b n) k = read_on p b n k
go_on (malloc_rest m r) k = unlock m (set_ret r k)
go_on (free_rest m) k = unlock m k

-- `launchFirstTask`; `startFirstTask` does not return, and leaves the boot stack.
unfoldable pub launch : List ℕ → Kernel → Kernel
launch [] k = k
launch (t ∷ rest) k = record (set_state t running (record k { ready_list = rest })) { running = t }

unfoldable pub launch_first_task : Kernel → Kernel
launch_first_task k = launch k.ready_list k
