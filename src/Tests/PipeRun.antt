-- ===== src/Tests/PipeRun.antt =====
-- A thread writes three bytes to the pipe 1, which holds two, and then reads four.
use flitos.Base.{
  ℕ, ◌+◌, ◌≡◌, refl, arith, true, List, [], ◌∷◌, ◌++◌, Returns, index, insert, contains,
}
use flitos.Kernel.State.{Kernel, served, write_rest, read_loop, minus_one, set_frames}
use flitos.Kernel.Scheduler.{resume, set_preemption, tcb_set_preemption, set_state}
use flitos.Kernel.Sync.{create_mutex, create_cond, lock, unlock, hand_over, notify_one, wake_first}
use flitos.Kernel.Pipes.{
  write_pipe, read_pipe, subscript_pipe, make_pipe, write_on, read_on, read_round, enqueue_bytes,
  dequeue_bytes, load_bytes, store_bytes, taken, left_over, set_ret,
}
use flitos.Kernel.Machine.{call, go_on, leave_system_call}
use flitos.Kernel.SystemCalls.{Outside, c_system_call, system_call_of, enter, dispatch}
use flitos.Kernel.Safety.{Inv, Allowed, result_of, system_call-Returns}
use flitos.Kernel.Machine.Step.{Step, serves, goes_on}
use flitos.Kernel.Reach.{Run, here, onward, Run-Inv}
use flitos.Kernel.Fifo.{sent, received, Untouched, Run-Fifo}
use flitos.Kernel.Writing.{Wakes, write-Wakes}
use flitos.Kernel.Reading.{Delivered, read-Delivered}
use flitos.Tests.Example.{busy, busy-Inv}

abbrev outside : Outside
outside = record { pointer = 4096; garbage = 0; controller = 5; gp = 6; address = λ i. 1024 + i }

unfoldable asked : Kernel
unfolding result_of
asked = result_of (c_system_call outside 1 100 3 27 busy) busy

unfoldable written : Kernel
unfolding result_of
written =
    result_of (go_on (write_rest 1 100 3) (set_frames (served minus_one true ∷ []) asked)) busy

unfoldable back : Kernel
unfolding result_of
back = result_of (go_on (served minus_one true) (set_frames [] written)) busy

unfoldable waits_for_bytes : Kernel
unfolding result_of
waits_for_bytes = result_of (c_system_call outside 1 200 4 26 back) busy

unfoldable delivered : Kernel
unfolding result_of
delivered =
    result_of (go_on (read_loop 1 200 4) (set_frames (served minus_one true ∷ []) waits_for_bytes))
      busy

unfoldable asks : Step busy asked
unfolding asked result_of c_system_call system_call_of enter dispatch call write_pipe read_pipe
    subscript_pipe make_pipe create_mutex create_cond lock unlock hand_over notify_one wake_first
    resume set_preemption tcb_set_preemption set_state go_on write_on read_on read_round
    enqueue_bytes dequeue_bytes load_bytes store_bytes taken left_over set_ret leave_system_call
    index insert contains
asks = serves outside 1 100 3 27 refl refl

unfoldable writes : Step asked written
unfolding written asked result_of c_system_call system_call_of enter dispatch call write_pipe
    read_pipe subscript_pipe make_pipe create_mutex create_cond lock unlock hand_over notify_one
    wake_first resume set_preemption tcb_set_preemption set_state go_on write_on read_on read_round
    enqueue_bytes dequeue_bytes load_bytes store_bytes taken left_over set_ret leave_system_call
    index insert contains
writes = goes_on (write_rest 1 100 3) (served minus_one true ∷ []) refl refl

unfoldable goes_back : Step written back
unfolding back written asked result_of c_system_call system_call_of enter dispatch call write_pipe
    read_pipe subscript_pipe make_pipe create_mutex create_cond lock unlock hand_over notify_one
    wake_first resume set_preemption tcb_set_preemption set_state go_on write_on read_on read_round
    enqueue_bytes dequeue_bytes load_bytes store_bytes taken left_over set_ret leave_system_call
    index insert contains
goes_back = goes_on (served minus_one true) [] refl refl

unfoldable asks_for_bytes : Step back waits_for_bytes
unfolding waits_for_bytes back written asked result_of c_system_call system_call_of enter dispatch
    call write_pipe read_pipe subscript_pipe make_pipe create_mutex create_cond lock unlock
    hand_over notify_one wake_first resume set_preemption tcb_set_preemption set_state go_on
    write_on read_on read_round enqueue_bytes dequeue_bytes load_bytes store_bytes taken left_over
    set_ret leave_system_call index insert contains
asks_for_bytes = serves outside 1 200 4 26 refl refl

unfoldable reads : Step waits_for_bytes delivered
unfolding delivered waits_for_bytes back written asked result_of c_system_call system_call_of enter
    dispatch call write_pipe read_pipe subscript_pipe make_pipe create_mutex create_cond lock unlock
    hand_over notify_one wake_first resume set_preemption tcb_set_preemption set_state go_on
    write_on read_on read_round enqueue_bytes dequeue_bytes load_bytes store_bytes taken left_over
    set_ret leave_system_call index insert contains
reads = goes_on (read_loop 1 200 4) (served minus_one true ∷ []) refl refl

writes-Allowed : Allowed writes
unfolding writes written asked result_of c_system_call system_call_of enter dispatch call write_pipe
    read_pipe subscript_pipe make_pipe create_mutex create_cond lock unlock hand_over notify_one
    wake_first resume set_preemption tcb_set_preemption set_state go_on write_on read_on read_round
    enqueue_bytes dequeue_bytes load_bytes store_bytes taken left_over set_ret leave_system_call
    index insert contains
writes-Allowed = refl

reads-Allowed : Allowed reads
unfolding reads delivered waits_for_bytes back written asked result_of c_system_call system_call_of
    enter dispatch call write_pipe read_pipe subscript_pipe make_pipe create_mutex create_cond lock
    unlock hand_over notify_one wake_first resume set_preemption tcb_set_preemption set_state go_on
    write_on read_on read_round enqueue_bytes dequeue_bytes load_bytes store_bytes taken left_over
    set_ret leave_system_call index insert contains
reads-Allowed = (refl, omega arith)

asks-Allowed : Allowed asks
unfolding asks asked result_of c_system_call system_call_of enter dispatch call write_pipe read_pipe
    subscript_pipe make_pipe create_mutex create_cond lock unlock hand_over notify_one wake_first
    resume set_preemption tcb_set_preemption set_state go_on write_on read_on read_round
    enqueue_bytes dequeue_bytes load_bytes store_bytes taken left_over set_ret leave_system_call
    index insert contains
asks-Allowed = ((λ absent. cc), omega arith)

asks_for_bytes-Allowed : Allowed asks_for_bytes
unfolding asks_for_bytes waits_for_bytes back written asked result_of c_system_call system_call_of
    enter dispatch call write_pipe read_pipe subscript_pipe make_pipe create_mutex create_cond lock
    unlock hand_over notify_one wake_first resume set_preemption tcb_set_preemption set_state go_on
    write_on read_on read_round enqueue_bytes dequeue_bytes load_bytes store_bytes taken left_over
    set_ret leave_system_call index insert contains
asks_for_bytes-Allowed = ((λ absent. cc), omega arith)

unfoldable writing : Run busy written
writing = onward (onward here asks asks-Allowed) writes writes-Allowed

unfoldable waiting_run : Run busy waits_for_bytes
unfolding goes_back
waiting_run = onward (onward writing goes_back tt) asks_for_bytes asks_for_bytes-Allowed

unfoldable whole : Run busy delivered
whole = onward waiting_run reads reads-Allowed

whole-Untouched : Untouched whole 1
unfolding whole waiting_run writing asks writes goes_back asks_for_bytes reads delivered
    waits_for_bytes back written asked result_of c_system_call system_call_of enter dispatch call
    write_pipe read_pipe subscript_pipe make_pipe create_mutex create_cond lock unlock hand_over
    notify_one wake_first resume set_preemption tcb_set_preemption set_state go_on write_on read_on
    read_round enqueue_bytes dequeue_bytes load_bytes store_bytes taken left_over set_ret
    leave_system_call index insert contains
whole-Untouched = (((((tt, refl), refl), refl), refl), refl)

abbrev there_first : List ℕ
there_first = 7 ∷ 8 ∷ []

abbrev put_in : List ℕ
put_in = 100 ∷ 101 ∷ 102 ∷ []

abbrev taken_out : List ℕ
taken_out = 7 ∷ 8 ∷ 100 ∷ 101 ∷ []

abbrev left_there : List ℕ
left_there = 102 ∷ []

Run-Fifo_example : there_first ++ put_in ≡ taken_out ++ left_there
unfolding whole waiting_run writing asks writes goes_back asks_for_bytes reads sent received
    delivered waits_for_bytes back written asked result_of c_system_call system_call_of enter
    dispatch call write_pipe read_pipe subscript_pipe make_pipe create_mutex create_cond lock unlock
    hand_over notify_one wake_first resume set_preemption tcb_set_preemption set_state go_on
    write_on read_on read_round enqueue_bytes dequeue_bytes load_bytes store_bytes taken left_over
    set_ret leave_system_call index insert contains
Run-Fifo_example = Run-Fifo busy delivered 1 busy-Inv whole whole-Untouched

system_call-Returns_example : Returns Inv (c_system_call outside 1 100 3 27 busy)
unfolding system_call_of asks
system_call-Returns_example = system_call-Returns outside 1 100 3 27 busy busy-Inv refl asks-Allowed

waits_for_bytes-Inv : Inv waits_for_bytes
waits_for_bytes-Inv = (Run-Inv busy waits_for_bytes busy-Inv waiting_run).0

read-Delivered_example :
    Returns
      (Delivered 1 200 4 true waits_for_bytes)
      (go_on (read_loop 1 200 4) (set_frames (served minus_one true ∷ []) waits_for_bytes))
unfolding waits_for_bytes back written asked result_of c_system_call system_call_of enter dispatch
    call write_pipe read_pipe subscript_pipe make_pipe create_mutex create_cond lock unlock
    hand_over notify_one wake_first resume set_preemption tcb_set_preemption set_state go_on
    write_on read_on read_round enqueue_bytes dequeue_bytes load_bytes store_bytes taken left_over
    set_ret leave_system_call index insert contains
read-Delivered_example =
    read-Delivered 1 200 4 minus_one true waits_for_bytes waits_for_bytes-Inv refl refl
      (omega arith) (omega arith) (omega arith)

-- 5 waits for the bytes that 1 writes.
unfoldable asked_2 : Kernel
unfolding result_of
asked_2 = result_of (c_system_call outside 2 100 3 27 busy) busy

unfoldable asks_2 : Step busy asked_2
unfolding asked_2 result_of c_system_call system_call_of enter dispatch call write_pipe read_pipe
    subscript_pipe make_pipe create_mutex create_cond lock unlock hand_over notify_one wake_first
    resume set_preemption tcb_set_preemption set_state go_on write_on read_on read_round
    enqueue_bytes dequeue_bytes load_bytes store_bytes taken left_over set_ret leave_system_call
    index insert contains
asks_2 = serves outside 2 100 3 27 refl refl

asks_2-Allowed : Allowed asks_2
unfolding asks_2 asked_2 result_of c_system_call system_call_of enter dispatch call write_pipe
    read_pipe subscript_pipe make_pipe create_mutex create_cond lock unlock hand_over notify_one
    wake_first resume set_preemption tcb_set_preemption set_state go_on write_on read_on read_round
    enqueue_bytes dequeue_bytes load_bytes store_bytes taken left_over set_ret leave_system_call
    index insert contains
asks_2-Allowed = ((λ absent. cc), omega arith)

asked_2-Inv : Inv asked_2
asked_2-Inv = (Run-Inv busy asked_2 busy-Inv (onward here asks_2 asks_2-Allowed)).0

write-Wakes_example :
    Returns
      (Wakes 2 100 3 5 [] asked_2)
      (go_on (write_rest 2 100 3) (set_frames (served minus_one true ∷ []) asked_2))
unfolding asks_2 asked_2 result_of c_system_call system_call_of enter dispatch call write_pipe
    read_pipe subscript_pipe make_pipe create_mutex create_cond lock unlock hand_over notify_one
    wake_first resume set_preemption tcb_set_preemption set_state go_on write_on read_on read_round
    enqueue_bytes dequeue_bytes load_bytes store_bytes taken left_over set_ret leave_system_call
    index insert contains
write-Wakes_example =
    write-Wakes 2 100 3 5 [] asked_2 (served minus_one true ∷ []) asked_2-Inv refl refl refl
