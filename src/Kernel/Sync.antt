-- ===== src/Kernel/Sync.antt =====
-- cs251_mutex.h, cs251_condition_variable.h, cs251_timer.h, `create` and `join`. A call that may
-- suspend its thread first leaves what follows it on the thread's stack, and the machine goes on
-- with the topmost frame of whichever thread runs then.
use flitos.Base.{
  ℕ, suc, zero, ◌+◌, ◌%◌, ◌^◌, Bool, true, false, not, List, [], ◌∷◌, ◌++◌, ltb, ◌==◌,
  if◌then◌else◌, length, erase_key, Outcome, ok, hang, ◌>>=◌,
}
use flitos.Kernel.State.{
  ThreadState, ready, finished, unknown, Mutex, new_mutex, Cond, new_cond, lock_rest, wait_rest,
  join_check, join_loop, sleep_loop, start, Kernel, minus_one, non_negative, tcb_of, mutex_of,
  cond_of, put_tcb, put_mutex, put_cond, put_context, push_frame,
}
use flitos.Kernel.Scheduler.{set_preemption, suspend, resume, thread_state, is_nil}

-- `MutexInternal`. `mtx_map_[id]` makes a new one where there is none.
abbrev pub is_locked : Mutex → Bool
is_locked m = non_negative m.owner

unfoldable pub try_lock : ℕ → Kernel → Outcome (Bool × Kernel)
try_lock id k = do
  k₁ ← set_preemption false k
  let m = mutex_of k id
  let k₂ = put_mutex id (if is_locked m then m else record m { owner = k.running }) k₁
  k₃ ← set_preemption true k₂
  ok (not (is_locked m), k₃)

-- The thread joins the queue and is suspended.
unfoldable pub block_on : ℕ → Mutex → Kernel → Outcome Kernel
block_on id m k =
    suspend
      (push_frame lock_rest (put_mutex id (record m { waiting = m.waiting ++ (k.running ∷ []) }) k))

-- Locking twice changes nothing.
unfoldable pub lock : ℕ → Kernel → Outcome Kernel
lock id k = do
  k₁ ← set_preemption false k
  let m = mutex_of k id
  if is_locked m
      then (if k.running == m.owner
          then set_preemption true (put_mutex id m k₁)
          else block_on id m k₁)
      else set_preemption true (put_mutex id (record m { owner = k.running }) k₁)

-- With nobody waiting only the owner unlocks; otherwise the first in the queue becomes the owner.
unfoldable pub hand_over : ℕ → Mutex → List ℕ → Kernel → Kernel
hand_over id m [] k =
    put_mutex id (if k.running == m.owner then record m { owner = minus_one } else m) k
hand_over id m (next ∷ rest) k =
    resume next (put_mutex id (record { owner = next; waiting = rest }) k)

unfoldable pub unlock : ℕ → Kernel → Outcome Kernel
unlock id k = do
  k₁ ← set_preemption false k
  let m = mutex_of k id
  set_preemption true (hand_over id m m.waiting k₁)

-- `MutexFactory::create`
unfoldable pub create_mutex : Kernel → ℕ × Kernel
create_mutex k =
    let id = (k.mutex_seq + 1) % 2 ^ 32 in
    (id, put_mutex id new_mutex (record k { mutex_seq = id }))

-- `ConditionVariableFactory::create`
unfoldable pub create_cond : Kernel → ℕ × Kernel
create_cond k =
    let id = (k.cond_seq + 1) % 2 ^ 32 in
    (id, put_cond id (new_cond id) (record k { cond_seq = id }))

-- `destroy` of the two factories: the entry goes, with those that wait in it
unfoldable pub destroy_mutex : ℕ → Kernel → Outcome Kernel
destroy_mutex m k = do t ← erase_key m k.mutexes; ok (record k { mutexes = t })

unfoldable pub destroy_cond : ℕ → Kernel → Outcome Kernel
destroy_cond c k = do t ← erase_key c k.conds; ok (record k { conds = t })

-- `ConditionVariableInternal::wait`
unfoldable pub wait : ℕ → ℕ → Kernel → Outcome Kernel
wait c m k = do
  k₁ ← set_preemption false k
  k₂ ← unlock m k₁
  let x = cond_of k₂ c
  let k₃ = put_cond c (record x { waiting = x.waiting ++ (k₂.running ∷ []) }) k₂
  suspend (push_frame (wait_rest m) k₃)

-- `wait` behind `suspend`
unfoldable pub after_wait : ℕ → Kernel → Outcome Kernel
after_wait m k = do k₁ ← set_preemption true k; lock m k₁

unfoldable pub wake_first : ℕ → Cond → List ℕ → Kernel → Kernel
wake_first c x [] k = put_cond c x k
wake_first c x (t ∷ rest) k = resume t (put_cond c (record x { waiting = rest }) k)

unfoldable pub notify_one : ℕ → Kernel → Outcome Kernel
notify_one c k = do
  k₁ ← set_preemption false k
  let x = cond_of k c
  set_preemption true (wake_first c x x.waiting k₁)

-- `while(!waiting_list_.empty()) notifyOne();`
unfoldable pub notify_loop : ℕ → ℕ → Kernel → Outcome Kernel
notify_loop zero c k = hang
notify_loop (suc f) c k =
    let rest = notify_one c k >>= notify_loop f c in
    if is_nil (cond_of k c).waiting then ok k else rest

-- A round takes one thread out, so that one round more than there are threads is enough.
unfoldable pub notify_all : ℕ → Kernel → Outcome Kernel
notify_all c k = notify_loop (suc (length (cond_of k c).waiting)) c (put_cond c (cond_of k c) k)

-- `ThreadScheduler::create` with `ThreadControlBlock::init`. The new thread starts in `stub_wrapper`
-- with the `mstatus` 0x1880, interrupts off.
unfoldable pub create_thread : Kernel → Outcome (ℕ × Kernel)
create_thread k = do
  k₁ ← set_preemption false k
  let id = (k₁.thread_counter + 1) % 2 ^ 32
  let (m, k₂) = create_mutex (record k₁ { thread_counter = id })
  let (c, k₃) = create_cond k₂
  let k₄ =
      put_tcb id (record { preemption = 1; state = ready; mtx_for_join = m; cond_for_join = c }) k₃
  let k₅ = put_context id (record { frames = start ∷ []; saved_mie = false; a0 = 0 }) k₄
  k₆ ← set_preemption true (record k₅ { ready_list = k₅.ready_list ++ (id ∷ []) })
  ok (id, k₆)

-- `ThreadScheduler::join`: `id_tcb_map_[tid]` makes an entry where there is none.
unfoldable pub join : ℕ → Kernel → Outcome Kernel
join t k =
    let b = tcb_of k t in
    lock b.mtx_for_join (push_frame (join_check t b.mtx_for_join b.cond_for_join) (put_tcb t b k))

unfoldable pub is_finished : ThreadState → Bool
is_finished finished = true
is_finished s = false

unfoldable pub is_unknown : ThreadState → Bool
is_unknown unknown = true
is_unknown s = false

-- One test of the loop of `join`.
unfoldable pub join_round : ℕ → ℕ → ℕ → Kernel → Outcome Kernel
join_round t m c k =
    if is_finished (thread_state t k) then unlock m k else wait c m (push_frame (join_loop t m c) k)

-- `SleepTimer::sleep`; the sum wraps.
unfoldable pub sleep : ℕ → Kernel → Outcome Kernel
sleep cnt k = lock k.mtx_for_sleep (push_frame (sleep_loop ((k.systick + cnt) % 2 ^ 32)) k)

-- One test of the loop of `sleep`.
unfoldable pub sleep_round : ℕ → Kernel → Outcome Kernel
sleep_round wake k =
    if ltb k.systick wake
    then wait k.cond_for_sleep k.mtx_for_sleep (push_frame (sleep_loop wake) k)
    else unlock k.mtx_for_sleep k

unfoldable pub update_tick : Kernel → Outcome Kernel
update_tick k = notify_all k.cond_for_sleep (record k { systick = (k.systick + 1) % 2 ^ 32 })
