-- ===== src/Kernel/AllCalls.antt =====
-- What each of a thread's calls relies on and does, as far as the invariant goes.
use flitos.Base.{
  ℕ, ◌+◌, ◌<◌, ◌≡◌, false, arith, length, Returns, returns, Returns-bind, Returns-mono,
}
use flitos.Kernel.State.{Kernel}
use flitos.Kernel.Scheduler.{thread_state}
use flitos.Kernel.Sync.{is_unknown}
use flitos.Kernel.Machine.{
  Call, yields, returns, exits, creates, makes_mutex, makes_cond, locks, tries, unlocks, joins,
  sleeps, notifies_one, notifies_all, waits, call,
}
use flitos.Kernel.Invariant.Turn.{TurnOf}
use flitos.Kernel.Invariant.Census.{census, hit}
use flitos.Kernel.Invariant.Sound.{Sound, After}
use flitos.Kernel.Invariant.Locks.{unlock-After, try_lock-After}
use flitos.Kernel.Invariant.Notify.{notify_one-After, notify_all-After}
use flitos.Kernel.Invariant.Block.{Moves, Single, Moves-of_After, lock-Moves, wait-Moves}
use flitos.Kernel.Invariant.Switch.{Sound-mono}
use flitos.Kernel.Invariant.Calls.{
  yields-Moves, notify_joiners-After, exits-Moves, joins-Moves, sleeps-Moves,
}
use flitos.Kernel.Invariant.Create.{
  next_id, Fresh, FreshMutex, FreshCond, create_thread-Created, create_mutex-After,
  create_cond-After,
}

-- What a call relies on: the ids that `create` gives are new; `join` is of an id that was given; and
-- where the call may take its thread off the processor for longer than a turn, another one is ready.
abbrev pub Proper : Call → Kernel → Type 0
Proper creates k = Fresh k
Proper makes_mutex k = FreshMutex k
Proper makes_cond k = FreshCond k
Proper yields k = Unit {0}
Proper returns k = Unit {0}
Proper exits k = 0 < length k.ready_list
Proper (locks m) k = 0 < length k.ready_list
Proper (tries m) k = Unit {0}
Proper (unlocks m) k = Unit {0}
Proper (joins t) k = (is_unknown (thread_state t k) ≡ false) × (0 < length k.ready_list)
Proper (sleeps n) k = 0 < length k.ready_list
Proper (notifies_one c) k = Unit {0}
Proper (notifies_all c) k = Unit {0}
Proper (waits c m) k = 0 < length k.ready_list

-- How many threads with the id `t` a call makes.
abbrev pub births : Call → Kernel → ℕ → ℕ
births creates k t = hit t (next_id k.thread_counter)
births yields k t = 0
births returns k t = 0
births exits k t = 0
births makes_mutex k t = 0
births makes_cond k t = 0
births (locks m) k t = 0
births (tries m) k t = 0
births (unlocks m) k t = 0
births (joins u) k t = 0
births (sleeps n) k t = 0
births (notifies_one c) k t = 0
births (notifies_all c) k t = 0
births (waits c m) k t = 0

abbrev pub Lands : (ℕ → ℕ) → Kernel → Kernel → Type 0
Lands more k l =
    Sound 4 0 l × ((t : ℕ) → census t l ≡ census t k + more t) × (l.io ≡ k.io) × TurnOf k l

pub lands : (k l : Kernel) → Moves k l → Lands (λ t. 0) k l
lands k l m = (m.sound, λ t. omega (arith, m.census_same t), m.io_same, m.turn)

pub Lands-of_After : (k l : Kernel) → After 1 0 k l → Lands (λ t. 0) k l
Lands-of_After k l a = lands k l (Moves-of_After 1 k l (omega arith) a)

-- Every call that has what it relies on returns: no assertion fails and no loop runs forever, the
-- counts stay balanced, and each thread is in as many places as before, a new one in one; pipes and
-- memory stay.
pub call-Lands :
    (c : Call) (k : Kernel)
    → Sound 1 0 k
    → Single k
    → Proper c k
    → Returns (Lands (births c k) k) (call c k)
unfolding call
call-Lands yields k s one p = Returns-mono (yields-Moves k s one) λ l m. lands k l m
call-Lands returns k s one p = Returns-mono (notify_joiners-After k s) λ l a. Lands-of_After k l a
call-Lands exits k s one p = Returns-mono (exits-Moves k s one p) λ l m. lands k l m
call-Lands creates k s one p =
    Returns-bind (create_thread-Created 1 k s (omega arith) p)
      λ r (id, (inner, counts, kept, io, turn)).
        returns (Sound-mono 1 4 0 (r.1) (omega arith) inner, counts, io, turn)
call-Lands makes_mutex k s one p = returns (Lands-of_After k _ (create_mutex-After 1 0 k s p))
call-Lands makes_cond k s one p = returns (Lands-of_After k _ (create_cond-After 1 0 k s p))
call-Lands (locks m) k s one p =
    Returns-mono (lock-Moves 1 m k s (omega arith) one p) λ l n. lands k l n
call-Lands (tries m) k s one p =
    Returns-bind (try_lock-After 1 0 m k s (omega arith) (omega arith))
      λ r (after, said). returns (Lands-of_After k (r.1) after)
call-Lands (unlocks m) k s one p =
    Returns-mono (unlock-After 1 0 m k s (omega arith) (omega arith)) λ l a. Lands-of_After k l a
call-Lands (joins t) k s one p = Returns-mono (joins-Moves t k s one p.1) λ l m. lands k l m
call-Lands (sleeps n) k s one p = Returns-mono (sleeps-Moves n k s one p) λ l m. lands k l m
call-Lands (notifies_one c) k s one p =
    Returns-mono (notify_one-After 1 0 c k s (omega arith) (omega arith))
      λ l a. Lands-of_After k l a.0
call-Lands (notifies_all c) k s one p =
    Returns-mono (notify_all-After 1 0 c k s (omega arith) (omega arith))
      λ l a. Lands-of_After k l a
call-Lands (waits c m) k s one p =
    Returns-mono (wait-Moves 1 c m k s (omega arith) one p) λ l n. lands k l n
