-- ===== src/Kernel/Admitted.antt =====
-- What the system calls rely on, and what they make and clear.
use flitos.Base.{ℕ, ◌<◌, ◌≡◌, length, Bool, true, false, ◌==◌, [], contains, Erasable}
use flitos.Kernel.State.{Kernel, minus_one, mutex_of, cond_of}
use flitos.Kernel.Pipes.{make_pipe}
use flitos.Kernel.SystemCalls.{
  SystemCall, reads_global, reads_controller, reads_vip_seq, reads_cmd_seq, reads_gp, adds_thread,
  gives_way, adds_mutex, adds_cond, opens_pipe, no_call, adds_handler, hooks, removes_mutex,
  removes_cond, closes_pipe, allocates, frees, writes_word, writes_memory, reads_pipe, writes_pipe,
  performs,
}
use flitos.Kernel.Invariant.Census.{hit}
use flitos.Kernel.Invariant.Create.{next_id, Fresh, FreshMutex, FreshCond}
use flitos.Kernel.Ready.{FreshPair}
use flitos.Kernel.AllCalls.{Proper, births}

-- What a system call relies on: the ids that it gives are new; what it destroys has neither the first
-- nor the last id of its map; nobody waits in a mutex or a condition variable that it removes; and where
-- it may take its thread off the processor, another one is ready.
abbrev pub Admitted : SystemCall → Kernel → Type 0
Admitted (adds_handler f) k = Unit {0}
Admitted adds_thread k = Fresh k
Admitted adds_mutex k = FreshMutex k
Admitted adds_cond k = FreshCond k
Admitted (removes_mutex m) k = Erasable m k.mutexes × ((mutex_of k m).waiting ≡ [])
Admitted (removes_cond c) k = Erasable c k.conds × ((cond_of k c).waiting ≡ [])
Admitted (performs c) k = Proper c k
Admitted opens_pipe k = FreshPair k × FreshPair ((make_pipe k).1)
Admitted (reads_pipe p b n) k =
    (contains p k.io.pipes ≡ false → FreshPair k) × (0 < length k.ready_list)
Admitted (writes_pipe p b n) k =
    (contains p k.io.pipes ≡ false → FreshPair k) × (0 < length k.ready_list)
Admitted (allocates n) k =
    ((k.io.mtx_allocator == minus_one) ≡ true → FreshMutex k) × (0 < length k.ready_list)
Admitted (frees a) k =
    ((k.io.mtx_allocator == minus_one) ≡ true → FreshMutex k) × (0 < length k.ready_list)
Admitted reads_global k = Unit {0}
Admitted reads_controller k = Unit {0}
Admitted reads_vip_seq k = Unit {0}
Admitted reads_cmd_seq k = Unit {0}
Admitted reads_gp k = Unit {0}
Admitted gives_way k = Unit {0}
Admitted no_call k = Unit {0}
Admitted (hooks id) k = Unit {0}
Admitted (closes_pipe p) k = Erasable p k.io.pipes
Admitted (writes_word h v) k = Unit {0}
Admitted (writes_memory h s n) k = Unit {0}

-- How many threads with the id `t` a system call makes.
abbrev pub offspring : SystemCall → Kernel → ℕ → ℕ
offspring adds_thread k t = hit t (next_id k.thread_counter)
offspring (performs c) k t = births c k t
offspring r k t = 0

-- The pipes that a system call makes empty or takes away.
abbrev pub resets : SystemCall → Kernel → ℕ → Bool
resets opens_pipe k p = next_id k.io.pipe_seq == p
resets (closes_pipe q) k p = q == p
resets r k p = false
