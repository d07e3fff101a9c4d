-- ===== src/Kernel/Sleeping.antt =====
-- `sleep` where its wake time passes 2^32.
use flitos.Base.{
  ℕ, ◌+◌, ◌%◌, ◌^◌, ◌≤◌, ◌<◌, ◌≡◌, sym, ◌∙◌, ap, ap₂, false, arith, ltb, le→ltb, [], ◌∷◌, index,
  if◌then◌else◌, Returns, Returns-mono,
}
use flitos.Kernel.State.{
  Kernel, Mutex, Context, new_mutex, sleep_loop, frames_of, set_frames, push_frame, mutex_of,
  put_mutex,
}
use flitos.Kernel.Sync.{is_locked, lock, wait, sleep, sleep_round, unlock}
use flitos.Kernel.Machine.{go_on}
use flitos.Kernel.Invariant.Sound.{Sound}
use flitos.Kernel.Invariant.Preempt.{bracket}
use flitos.Kernel.Invariant.Switch.{push_frame-After}
use flitos.Kernel.Invariant.Locks.{put_mutex-After}
use flitos.Kernel.Invariant.Calls.{user-Sound}
use flitos.Kernel.Locking.{top_frame}
use flitos.Kernel.Safety.{Inv}

-- `lock` of a free mutex goes on with the same thread and changes no stack and nothing of the timer.
record GoesOn (k l : Kernel) : Type 0 where
  running_same : l.running ≡ k.running
  ready_same : l.ready_list ≡ k.ready_list
  contexts_same : l.contexts ≡ k.contexts
  systick_same : l.systick ≡ k.systick
  mtx_for_sleep_same : l.mtx_for_sleep ≡ k.mtx_for_sleep

lock_free :
    (id : ℕ) (k : Kernel)
    → Sound 2 0 k
    → is_locked (mutex_of k id) ≡ false
    → Returns (GoesOn k) (lock id k)
unfolding lock
lock_free id k s free =
    let m : Mutex = record (mutex_of k id) { owner = k.running } in
    rw free (
      Returns-mono
        (bracket 2 0 k (put_mutex id m) s (omega arith) (omega arith) λ j inner quiet.
          put_mutex-After 2 1 id m j inner
            (ap (λ t. (index new_mutex id t).waiting) (sym quiet.mutexes_same)))
        λ l ((outer, keeps), (j, quiet, still)). record {
          running_same = keeps.running_same;
          ready_same = still.ready_same ∙ quiet.ready_same;
          contexts_same = still.contexts_same ∙ quiet.contexts_same;
          systick_same = still.systick_same ∙ quiet.systick_same;
          mtx_for_sleep_same = still.mtx_for_sleep_same ∙ quiet.mtx_for_sleep_same;
        })

-- The thread is in the loop of `sleep`, whose next test ends it: it gives the mutex of the timer back.
abbrev pub GivesBack : Kernel → Kernel → Type 0
GivesBack k l =
    (wake : ℕ) × (frames_of l l.running ≡ sleep_loop wake ∷ [])
    × (go_on (sleep_loop wake) (set_frames [] l) ≡ unlock k.mtx_for_sleep (set_frames [] l))

-- In a state of the invariant, with the mutex of the timer free, a thread's own code that sleeps until
-- the tick count has passed 2^32 does not sleep at all: `sleep` goes on with the same thread to its
-- loop, and the first test of the loop ends it, so that the thread gives the mutex back.
pub sleep-wrapped :
    (cnt : ℕ) (k : Kernel)
    → Inv k
    → frames_of k k.running ≡ []
    → is_locked (mutex_of k k.mtx_for_sleep) ≡ false
    → k.systick < 2 ^ 32
    → cnt < 2 ^ 32
    → 2 ^ 32 ≤ k.systick + cnt
    → Returns
        (λ l. (l.running ≡ k.running) × (l.ready_list ≡ k.ready_list) × GivesBack k l)
        (sleep cnt k)
unfolding sleep go_on sleep_round
sleep-wrapped cnt k inv user free tick short past =
    let wake : ℕ = (k.systick + cnt) % 2 ^ 32 in
    let (pushed, keeps) =
      push_frame-After 1 0 (sleep_loop wake) k (user-Sound 1 k inv.sound user) (omega arith) in
    Returns-mono (lock_free k.mtx_for_sleep (push_frame (sleep_loop wake) k) pushed free) λ l same.
      (
        same.running_same,
        same.ready_same,
        (
          wake,
          ap₂ (λ (c : ℕ → Context) t. (c t).frames) same.contexts_same same.running_same
              ∙ top_frame (sleep_loop wake) k
              ∙ ap (λ fs. sleep_loop wake ∷ fs) user,
          ap
                (λ b.
                  if b
                  then wait l.cond_for_sleep l.mtx_for_sleep
                      (push_frame (sleep_loop wake) (set_frames [] l))
                  else unlock l.mtx_for_sleep (set_frames [] l))
                (ap (λ t. ltb t wake) same.systick_same ∙ le→ltb k.systick wake (omega arith))
              ∙ ap (λ m. unlock m (set_frames [] l)) same.mtx_for_sleep_same,
        ),
      )
