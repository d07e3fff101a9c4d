-- ===== src/Kernel/AllServes.antt =====
-- What each system call does, as far as the invariant and the pipes' bytes go.
use flitos.Base.{
  ℕ, ◌<◌, ◌≡◌, refl, ◌∙◌, ap, Bool, true, false, arith, ◌==◌, length, index, Returns, returns,
  Returns-bind, Returns-mono,
}
use flitos.Firmware.Handlers.{
  Live, SList, null, dangling, nodes, insert_node, register_handler, init_list,
}
use flitos.Firmware.Memory.{write_target_mem, write_target}
use flitos.Kernel.Io.{Io}
use flitos.Kernel.State.{
  Kernel, served, write_rest, read_loop, malloc_rest, free_rest, minus_one, push_frame,
}
use flitos.Kernel.Pipes.{
  no_pipe, put_io, subscript_pipe, open_pipe, write_pipe, read_pipe, set_ret,
  allocator_mutex_instance,
}
use flitos.Kernel.SystemCalls.{
  Outside, SystemCall, reads_global, reads_controller, reads_vip_seq, reads_cmd_seq, reads_gp,
  adds_thread, gives_way, adds_mutex, adds_cond, opens_pipe, no_call, adds_handler, hooks,
  removes_mutex, removes_cond, closes_pipe, allocates, frees, writes_word, writes_memory,
  reads_pipe, writes_pipe, performs, heap_call, hook_function_pointer, dispatch, system_call_of,
  enter, c_system_call,
}
use flitos.Kernel.Invariant.Turn.{Turn-behind}
use flitos.Kernel.Invariant.Sound.{Sound, After, Keeps-trans}
use flitos.Kernel.Invariant.Switch.{Sound-mono, push_frame-After}
use flitos.Kernel.Invariant.Locks.{settle}
use flitos.Kernel.Invariant.Block.{Single}
use flitos.Kernel.Invariant.Transfer.{set_ret-Sound}
use flitos.Kernel.Invariant.Tick.{in_interrupt_yield-Moves}
use flitos.Kernel.Invariant.Create.{
  next_id, FreshMutex, create_thread-Created, create_mutex-After, create_cond-After,
}
use flitos.Kernel.Destroyed.{destroy_mutex-After, destroy_cond-After}
use flitos.Kernel.Ready.{
  bytes-same, Live-same, Serves, of_Lands, Ready-here, Ready-After, Ready-put_io, answered,
  served_at_once, lock-Serves, subscript_pipe-Ready, open_pipe-Ready, close_pipe-Ready,
  allocator_mutex_instance-Ready,
}
use flitos.Kernel.Admitted.{Admitted, offspring, resets}
use flitos.Kernel.AllCalls.{births, lands, call-Lands}

register_handler-Live :
    (g f : ℕ) (hs : SList) → Live hs → Returns (λ l. Live l) (register_handler g hs f)
unfolding init_list register_handler insert_node
register_handler-Live g f null live = returns tt
register_handler-Live g f (nodes h ts) live = returns tt
register_handler-Live g f dangling live = absurd live

-- A call that reads a variable.
replies : (v : ℕ) (k : Kernel) → Sound 1 0 k → Serves (λ t. 0) (λ p. false) k (set_ret v k)
replies v k s = answered (λ p. false) v k k (Ready-here (λ p. false) k s)

-- A call that changes other data than the pipes.
writes :
    (i : Io) (v : ℕ) (k : Kernel)
    → Sound 1 0 k
    → i.pipes ≡ k.io.pipes
    → (Live k.io.handlers → Live i.handlers)
    → Serves (λ t. 0) (λ p. false) k (set_ret v (put_io i k))
writes i v k s same live =
    answered (λ p. false) v k (put_io i k)
      (Ready-put_io (λ p. false) i k k (Ready-here (λ p. false) k s) live
        λ p h. ap (λ x. (index no_pipe p x).bytes) same)

after_all :
    (v : ℕ) (k j : Kernel)
    → Sound 1 0 k
    → After 1 0 k j
    → Serves (λ t. 0) (λ p. false) k (set_ret v j)
after_all v k j s a =
    answered (λ p. false) v k j (Ready-After (λ p. false) k k j (Ready-here (λ p. false) k s) a)

removes : (k j : Kernel) → Sound 1 0 k → After 1 0 k j → Serves (λ t. 0) (λ p. false) k j
removes k j s a =
    served_at_once (λ p. false) k j (Ready-After (λ p. false) k k j (Ready-here (λ p. false) k s) a)

heap_call-Serves :
    (o : Outside) (gives : Bool) (k : Kernel)
    → Sound 1 0 k
    → Single k
    → 0 < length k.ready_list
    → ((k.io.mtx_allocator == minus_one) ≡ true → FreshMutex k)
    → Returns (Serves (λ t. 0) (λ p. false) k) (heap_call o gives k)
unfolding heap_call
heap_call-Serves o true k s one others fresh =
    lock-Serves (λ p. false) ((allocator_mutex_instance k).0)
      (malloc_rest ((allocator_mutex_instance k).0) o.pointer) k ((allocator_mutex_instance k).1)
      (allocator_mutex_instance-Ready (λ p. false) k s fresh) refl refl one others
heap_call-Serves o false k s one others fresh =
    lock-Serves (λ p. false) ((allocator_mutex_instance k).0)
      (free_rest ((allocator_mutex_instance k).0)) k ((allocator_mutex_instance k).1)
      (allocator_mutex_instance-Ready (λ p. false) k s fresh) refl refl one others

-- Every system call that has what it relies on returns control, to its thread or to another one.
pub dispatch-Serves :
    (o : Outside) (r : SystemCall) (k : Kernel)
    → Sound 1 0 k
    → Single k
    → Admitted r k
    → Live k.io.handlers
    → Returns (Serves (offspring r k) (resets r k) k) (dispatch o r k)
unfolding dispatch read_pipe write_pipe set_ret
dispatch-Serves o reads_global k s one a list = returns (replies k.io.global k s)
dispatch-Serves o reads_controller k s one a list = returns (replies o.controller k s)
dispatch-Serves o reads_vip_seq k s one a list = returns (replies k.io.vip_seq k s)
dispatch-Serves o reads_cmd_seq k s one a list = returns (replies k.io.cmd_seq k s)
dispatch-Serves o reads_gp k s one a list = returns (replies o.gp k s)
dispatch-Serves o (hooks id) k s one a list = returns (replies (hook_function_pointer o id) k s)
dispatch-Serves o (adds_handler f) k s one a list =
    Returns-bind (register_handler-Live o.garbage f k.io.handlers list)
      λ hs done. returns (writes _ 5 k s refl (λ h. done))
dispatch-Serves o (writes_memory h b n) k s one a list =
    returns (writes _ ((write_target_mem h b n k.io.memory).0) k s refl (λ h. h))
dispatch-Serves o (writes_word h v) k s one a list =
    returns (writes _ ((write_target h v k.io.memory).0) k s refl (λ h. h))
dispatch-Serves o adds_thread k s one a list =
    Returns-bind (create_thread-Created 1 k s (omega arith) a)
      λ r (id, (inner, counts, kept, io, turn)).
        let v : ℕ = r.0 in
        let j : Kernel = r.1 in
        returns (record {
          sound = Sound-mono 1 4 0 (set_ret v j) (omega arith) (set_ret-Sound 1 0 v j inner);
          counts = λ t. counts t;
          bytes_same = λ p h. bytes-same k j p io;
          live = Live-same k j io;
          turn = turn;
        })
dispatch-Serves o gives_way k s one a list =
    Returns-mono (in_interrupt_yield-Moves k (Sound-mono 1 4 0 k (omega arith) s) one)
      λ l m. of_Lands (λ t. 0) (λ p. false) k l (lands k l m)
dispatch-Serves o adds_mutex k s one a list =
    returns (after_all _ k _ s (create_mutex-After 1 0 k s a))
dispatch-Serves o (removes_mutex m) k s one a list =
    Returns-mono (destroy_mutex-After m k s a) λ l after. removes k l s after
dispatch-Serves o adds_cond k s one a list =
    returns (after_all _ k _ s (create_cond-After 1 0 k s a))
dispatch-Serves o (removes_cond c) k s one a list =
    Returns-mono (destroy_cond-After c k s a) λ l after. removes k l s after
dispatch-Serves o (performs c) k s one a list =
    Returns-mono (call-Lands c k s one a) λ l done. of_Lands (births c k) (λ p. false) k l done
dispatch-Serves o opens_pipe k s one a list = returns (
    answered (λ p. next_id k.io.pipe_seq == p) ((open_pipe k).0) k ((open_pipe k).1)
      (open_pipe-Ready k s a.0 a.1))
dispatch-Serves o (closes_pipe p) k s one a list =
    Returns-mono (close_pipe-Ready p k s a) λ l ready. served_at_once (λ q. p == q) k l ready
dispatch-Serves o (reads_pipe p b n) k s one a list =
    let ready = subscript_pipe-Ready (λ q. false) p k k (Ready-here (λ q. false) k s) a.0 in
    lock-Serves (λ q. false) _ (read_loop p b n) k (subscript_pipe p k) ready refl refl one a.1
dispatch-Serves o (writes_pipe p b n) k s one a list =
    let ready = subscript_pipe-Ready (λ q. false) p k k (Ready-here (λ q. false) k s) a.0 in
    lock-Serves (λ q. false) _ (write_rest p b n) k (subscript_pipe p k) ready refl refl one a.1
dispatch-Serves o (allocates n) k s one a list = heap_call-Serves o true k s one a.1 a.0
dispatch-Serves o (frees p) k s one a list = heap_call-Serves o false k s one a.1 a.0
dispatch-Serves o no_call k s one a list =
    returns (served_at_once (λ p. false) k k (Ready-here (λ p. false) k s))

pub enter-After : (k : Kernel) → Sound 0 0 k → After 1 0 k (enter k)
unfolding enter
enter-After k s =
    let (inner, keeps) = push_frame-After 0 0 (served minus_one k.mie) k s (omega arith) in
    let (outer, more) =
      settle 1 0 (push_frame (served minus_one k.mie) k) (enter k) inner refl refl refl refl refl
        (λ t. refl) in
    (outer, Keeps-trans keeps more)

-- From a thread's own code.
pub system_call-Serves :
    (o : Outside) (a0 a1 a2 n : ℕ) (k : Kernel)
    → Sound 0 0 k
    → Single k
    → Admitted (system_call_of a0 a1 a2 n) (enter k)
    → Live k.io.handlers
    → Returns
        (Serves
          (offspring (system_call_of a0 a1 a2 n) (enter k))
          (resets (system_call_of a0 a1 a2 n) (enter k))
          k)
        (c_system_call o a0 a1 a2 n k)
unfolding c_system_call
system_call-Serves o a0 a1 a2 n k s one a list =
    let (inner, keeps) = enter-After k s in
    Returns-mono
      (dispatch-Serves o (system_call_of a0 a1 a2 n) (enter k) inner
        (λ t. omega (arith, keeps.census_same t, one t)) a
        (Live-same k (enter k) keeps.io_same list))
      λ l done. record {
        sound = done.sound;
        counts = λ t. omega (arith, done.counts t, keeps.census_same t);
        bytes_same = λ p h. done.bytes_same p h ∙ bytes-same k (enter k) p keeps.io_same;
        live = λ h. done.live (Live-same k (enter k) keeps.io_same h);
        turn = Turn-behind _ _ _ _ _ _ keeps.running_same keeps.joins done.turn;
      }
