-- ===== src/Kernel/Invariant/Preempt.antt =====
-- `setPreemption`: its assertion holds, and the counts stay balanced.
use flitos.Base.{
  ℕ, suc, ◌+◌, ◌-◌, ◌%◌, ◌^◌, ◌≤◌, ◌<◌, ◌≡◌, refl, subst, ◌⊎◌, ==_refl, Bool, true, false, arith,
  if◌then◌else◌, index-insert, contains-insert, Returns, Returns-bind, Returns-mono, ◌>>=◌, returns,
}
use flitos.Kernel.State.{Tcb, new_tcb, Kernel, tcb_of, frames_of, put_tcb, above}
use flitos.Kernel.Scheduler.{tcb_set_preemption, set_preemption}
use flitos.Kernel.Invariant.Debt.{debts, Ordered, debts-le}
use flitos.Kernel.Invariant.Sound.{Joins-same, Sound, After, Calm, Quiet, Keeps-trans}

-- An entry whose count still fits what the thread owes.
put_tcb-Calm :
    (r e f : ℕ) (b : Tcb) (k : Kernel)
    → Sound r e k
    → b.preemption < 2 ^ 32
    → (b.preemption + debts (frames_of k k.running) + f) % 2 ^ 32 ≡ 1
    → Calm r f k (put_tcb k.running b k)
put_tcb-Calm r e f b k s low even = (
  (
    record {
      low = λ t. ground (arith, index-insert new_tcb k.running b k.tcbs t, s.low t);
      even = λ t. ground (arith, index-insert new_tcb k.running b k.tcbs t, s.even t);
      shape = s.shape;
      present = λ t h. ground (arith, contains-insert k.running b k.tcbs t, s.present t h);
    },
    record {
      census_same = λ t. refl;
      kept = λ t h. ground (arith, contains-insert k.running b k.tcbs t);
      room = omega arith;
      joins = Joins-same _ _ refl;
      running_same = refl;
      io_same = refl;
    },
  ),
  record {
    ready_same = refl;
    mutexes_same = refl;
    conds_same = refl;
    finished_same = refl;
    contexts_same = refl;
    counter_same = refl;
    mutex_seq_same = refl;
    cond_seq_same = refl;
    data_same = refl;
    systick_same = refl;
    mtx_for_sleep_same = refl;
  },
)

pub owed : (r e : ℕ) (k : Kernel) → Sound r e k → r ≤ 4 → debts (frames_of k k.running) ≤ 2
owed r e k s h =
    let mine : Ordered r (frames_of k k.running) =
      subst (λ (b : Bool). Ordered (if b then r else 4) (frames_of k k.running)) (==_refl k.running)
        (s.shape k.running) in
    omega (arith, debts-le r (frames_of k k.running) mine)

pub balance :
    (r e : ℕ) (k : Kernel)
    → Sound r e k
    → ((tcb_of k k.running).preemption + debts (frames_of k k.running) + e) % 2 ^ 32 ≡ 1
balance r e k s = ground (arith, s.even k.running)

not_above : (n : ℕ) → (n ≤ 1) ⊎ (2 ^ 31 ≤ n) → above 1 n ≡ false
not_above n h = ground arith

by_range : (n : ℕ) → ((1 < n) → 2 ^ 31 ≤ n) → (n ≤ 1) ⊎ (2 ^ 31 ≤ n)
by_range n h = grind arith

pub set_preemption-off :
    (r e : ℕ) (k : Kernel)
    → Sound r e k
    → r ≤ 4
    → e ≤ 8
    → Returns (Calm r (suc e) k) (set_preemption false k)
unfolding set_preemption tcb_set_preemption
set_preemption-off r e k s h small =
    let n : ℕ = ((tcb_of k k.running).preemption + 2 ^ 32 - 1) % 2 ^ 32 in
    let even = balance r e k s in
    let low = s.low k.running in
    let few = owed r e k s h in
    rw (not_above n (by_range n (omega arith))) (
      returns (
        put_tcb-Calm r e (suc e) (record (tcb_of k k.running) { preemption = n }) k s (omega arith)
          (omega arith)))

pub set_preemption-on :
    (r e : ℕ) (k : Kernel)
    → Sound r (suc e) k
    → r ≤ 4
    → e ≤ 8
    → Returns (Calm r e k) (set_preemption true k)
unfolding set_preemption tcb_set_preemption
set_preemption-on r e k s h small =
    let n : ℕ = ((tcb_of k k.running).preemption + 1) % 2 ^ 32 in
    let even = balance r (suc e) k s in
    let low = s.low k.running in
    let few = owed r (suc e) k s h in
    rw (not_above n (by_range n (omega arith))) (
      returns (
        put_tcb-Calm r (suc e) e (record (tcb_of k k.running) { preemption = n }) k s (omega arith)
          (omega arith)))

-- Code between `setPreemption(false)` and `setPreemption(true)`.
pub bracket :
    (r e : ℕ) (k : Kernel) (f : Kernel → Kernel)
    → Sound r e k
    → r ≤ 4
    → e ≤ 7
    → ((j : Kernel) → Sound r (suc e) j → Quiet k j → After r (suc e) j (f j))
    → Returns
        (λ l. After r e k l × ((j : Kernel) × Quiet k j × Quiet (f j) l))
        (set_preemption false k >>= λ j. set_preemption true (f j))
bracket r e k f s h small body =
    Returns-bind (set_preemption-off r e k s h (omega arith)) λ j ((inner, before), quiet).
      let (done, kept) = body j inner quiet in
      Returns-mono (set_preemption-on r e (f j) done h (omega arith)) λ l ((outer, behind), still).
        ((outer, Keeps-trans before (Keeps-trans kept behind)), (j, quiet, still))
