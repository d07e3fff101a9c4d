-- ===== src/Tests/BootRun.antt =====
-- The first steps of the kernel: the idle thread starts, and yields to the one that waits for a
-- cartridge.
use flitos.Base.{
  ℕ, ◌+◌, ◌≤◌, ◌<◌, ◌≢◌, arith, length, ◌≡◌, refl, List, [], ◌∷◌, ◌++◌, index, insert, contains, ok,
  Returns,
}
use flitos.Kernel.State.{Kernel, start, frames_of, set_frames, tcb_of}
use flitos.Kernel.Scheduler.{
  set_preemption, tcb_set_preemption, critical_count, disable_interrupts, enable_interrupts,
  set_state, yield_thread, switch_current_thread_to, switch_ready, switch_to_next,
  debug_context_switch_info, allow_preemption, park, thread_switch,
}
use flitos.Kernel.Sync.{create_mutex, create_cond, create_thread}
use flitos.Kernel.Machine.{yields, call, go_on, launch, launch_first_task}
use flitos.Kernel.Machine.Step.{Step, calls, goes_on}
use flitos.Kernel.Boot.{initial, make_timer, main, boot}
use flitos.Kernel.Invariant.Census.{census, count}
use flitos.Kernel.Safety.{Inv, made_by, result_of, step-Inv, go_on-Returns}
use flitos.Kernel.Order.{ran_in, Run-Joins}
use flitos.Kernel.Idle.{OnlyLoops, reach-idle}
use flitos.Kernel.Reach.{Run, here, onward, reach-Inv, reach-preemption}

unfoldable booted : Kernel
unfolding result_of
booted = result_of boot initial

unfoldable started : Kernel
unfolding result_of
started = result_of (go_on start (set_frames [] booted)) initial

unfoldable yielded : Kernel
unfolding result_of
yielded = result_of (call yields started) initial

boots : boot ≡ ok booted
unfolding booted result_of boot main make_timer create_mutex create_cond create_thread
    set_preemption tcb_set_preemption disable_interrupts critical_count launch_first_task launch
    set_state index insert
boots = refl

starts : Step booted started
unfolding started booted result_of go_on enable_interrupts boot main make_timer create_mutex
    create_cond create_thread set_preemption tcb_set_preemption disable_interrupts critical_count
    launch_first_task launch set_state index insert
starts = goes_on start [] refl refl

yields_then : Step started yielded
unfolding yielded started booted result_of go_on enable_interrupts boot main make_timer create_mutex
    create_cond create_thread set_preemption tcb_set_preemption disable_interrupts critical_count
    launch_first_task launch set_state index insert contains call yield_thread
    switch_current_thread_to switch_ready switch_to_next debug_context_switch_info allow_preemption
    park thread_switch
yields_then = calls yields refl refl

booted-start : frames_of booted booted.running ≡ start ∷ []
unfolding booted result_of boot main make_timer create_mutex create_cond create_thread
    set_preemption tcb_set_preemption disable_interrupts critical_count launch_first_task launch
    set_state index insert
booted-start = refl

booted-Inv : Inv booted
booted-Inv = (reach-Inv booted booted boots here).0

go_on-Returns_example : Returns Inv (go_on start (set_frames [] booted))
go_on-Returns_example = go_on-Returns start [] booted booted-Inv booted-start tt

step-Inv_example : Inv started × ((t : ℕ) → census t started ≡ census t booted + made_by starts t)
unfolding starts
step-Inv_example = step-Inv booted started booted-Inv starts tt

reach-Inv_example : Inv yielded × ((t : ℕ) → census t booted ≤ census t yielded)
unfolding starts yields_then
reach-Inv_example = reach-Inv booted yielded boots (onward (onward here starts tt) yields_then tt)

started-user : frames_of started started.running ≡ []
unfolding started booted result_of go_on enable_interrupts boot main make_timer create_mutex
    create_cond create_thread set_preemption tcb_set_preemption disable_interrupts critical_count
    launch_first_task launch set_state index insert
started-user = refl

reach-preemption_example : (tcb_of started started.running).preemption ≡ 1
unfolding starts
reach-preemption_example =
    reach-preemption booted started boots (onward here starts tt) started-user

unfoldable two_steps : Run booted yielded
unfolding starts yields_then
two_steps = onward (onward here starts tt) yields_then tt

Run-Joins_example :
    (joined : List ℕ) × (ran_in two_steps ++ yielded.ready_list ≡ booted.ready_list ++ joined)
Run-Joins_example = Run-Joins booted yielded booted-Inv two_steps

yielded-other : yielded.running ≢ booted.running
unfolding yielded started booted result_of go_on enable_interrupts boot main make_timer create_mutex
    create_cond create_thread set_preemption tcb_set_preemption disable_interrupts critical_count
    launch_first_task launch set_state index insert contains call yield_thread
    switch_current_thread_to switch_ready switch_to_next debug_context_switch_info allow_preemption
    park thread_switch
yielded-other e = omega arith

two_steps-OnlyLoops : OnlyLoops booted.running two_steps
unfolding two_steps starts yields_then
two_steps-OnlyLoops = ((tt, λ e. tt), λ e. tt)

reach-idle_example : (0 < count booted.running yielded.ready_list) × (0 < length yielded.ready_list)
reach-idle_example = reach-idle booted yielded boots two_steps two_steps-OnlyLoops yielded-other
