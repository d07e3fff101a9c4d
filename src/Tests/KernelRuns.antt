-- ===== src/Tests/KernelRuns.antt =====
-- The kernel's theorems in the state `busy`.
use flitos.Base.{◌-◌, ◌^◌, ◌≡◌, ◌≢◌, refl, arith, [], ◌∷◌, index, Returns, ◌>>=◌}
use flitos.Kernel.State.{Kernel, switched, lock_rest, handler, mutex_of, frames_of}
use flitos.Kernel.Scheduler.{yield_thread, exit}
use flitos.Kernel.Sync.{sleep, lock, unlock, notify_all}
use flitos.Kernel.Interrupts.{interrupt}
use flitos.Kernel.Machine.{locks, call, notify_joiners}
use flitos.Kernel.Invariant.Census.{count}
use flitos.Kernel.Invariant.Sound.{After}
use flitos.Kernel.Invariant.Calls.{user-Sound}
use flitos.Kernel.Safety.{Inv, call-Returns, interrupt-Returns}
use flitos.Kernel.Turns.{yield-turn, finish-turn, interrupt-turn}
use flitos.Kernel.Waking.{Woken, notify_all-Woken}
use flitos.Kernel.Locking.{Puts, lock-blocks}
use flitos.Kernel.Unlocking.{unlock-hands_over}
use flitos.Kernel.Sleeping.{GivesBack, sleep-wrapped}
use flitos.Tests.Example.{busy, tick, busy-Inv}

call-Returns_example : Returns Inv (call (locks 1) busy)
call-Returns_example = call-Returns (locks 1) busy busy-Inv refl (omega arith)

interrupt-Returns_example : Returns Inv (interrupt tick busy)
interrupt-Returns_example = interrupt-Returns tick busy busy-Inv refl

yield-turn_example :
    Returns
      (λ l.
        (l.running ≡ 3)
        × (l.ready_list ≡ 1 ∷ [])
        × (l.finished_list ≡ [])
        × (frames_of l 1 ≡ switched ∷ []))
      (yield_thread busy)
yield-turn_example = yield-turn 3 [] busy busy-Inv refl refl

finish-turn_example :
    Returns
      (λ l.
        (l.running ≡ 3)
        × (l.ready_list ≡ 4 ∷ [])
        × (count 1 l.ready_list ≡ 0)
        × (l.finished_list ≡ 1 ∷ [])
        × (frames_of l 1 ≡ switched ∷ []))
      (notify_joiners busy >>= exit)
unfolding index
finish-turn_example = finish-turn 3 [] busy busy-Inv refl refl

interrupt-turn_example :
    Returns
      (λ l. (l.running ≡ 3) × (l.ready_list ≡ 4 ∷ 1 ∷ []) × (frames_of l 1 ≡ handler ∷ []))
      (interrupt tick busy)
unfolding index
interrupt-turn_example = interrupt-turn tick 3 [] busy busy-Inv refl refl refl

lock-blocks_example :
    Returns
      (λ l.
        Puts 1 (record { owner = 3; waiting = 2 ∷ 1 ∷ [] }) busy l
        × (l.running ≡ 3)
        × (l.ready_list ≡ [])
        × (frames_of l 1 ≡ switched ∷ lock_rest ∷ []))
      (lock 1 busy)
unfolding index
lock-blocks_example = lock-blocks 1 3 [] busy busy-Inv refl refl other refl
  where
    other : 1 ≢ (mutex_of busy 1).owner
    other e = omega arith

unlock-hands_over_example :
    Returns
      (λ l.
        Puts 1 (record { owner = 2; waiting = [] }) busy l
        × (l.running ≡ 1)
        × (l.ready_list ≡ 3 ∷ 2 ∷ []))
      (unlock 1 busy)
unfolding index
unlock-hands_over_example = unlock-hands_over 1 2 [] busy busy-Inv refl refl

notify_all-Woken_example :
    Returns (λ l. After 1 0 busy l × Woken 1 (4 ∷ []) [] busy l) (notify_all 1 busy)
unfolding index
notify_all-Woken_example =
    notify_all-Woken 1 0 1 busy (user-Sound 1 busy busy-Inv.sound refl) (omega arith) (omega arith)

-- `busy` shortly before its tick count turns over.
abbrev late : Kernel
late = record busy { systick = 2 ^ 32 - 5 }

late-Inv : Inv late
late-Inv = record {
  sound = record {
    low = busy-Inv.sound.low;
    even = busy-Inv.sound.even;
    shape = busy-Inv.sound.shape;
    present = busy-Inv.sound.present;
  };
  single = busy-Inv.single;
  live = busy-Inv.live;
}

sleep-wrapped_example :
    Returns (λ l. (l.running ≡ 1) × (l.ready_list ≡ 3 ∷ []) × GivesBack late l) (sleep 10 late)
unfolding index
sleep-wrapped_example =
    sleep-wrapped 10 late late-Inv refl refl (omega arith) (omega arith) (omega arith)
