-- ===== src/Kernel/Invariant/Tick.antt =====
-- The switch of an interrupt.
use flitos.Base.{
  ℕ, ◌≡◌, ◌≢◌, refl, sym, ◌++◌, ◌∙◌, ap, Bool, true, false, arith, List, [], ◌∷◌, if◌then◌else◌,
  contains, inl, inr, Bool-cases, ok, Returns, ne→==, returns, Returns-bind,
}
use flitos.Kernel.State.{Kernel, ready, tcb_of, frames_of}
use flitos.Kernel.Scheduler.{
  allow_preemption, is_nil, set_state, thread_switch, debug_context_switch_info, yield_to_next,
  in_interrupt_yield,
}
use flitos.Kernel.Invariant.Census.{census, count, count-append}
use flitos.Kernel.Invariant.Turn.{TurnOf, stays, hands}
use flitos.Kernel.Invariant.Sound.{Joins-same, Sound}
use flitos.Kernel.Invariant.Switch.{preemption-marked, contains-marked}
use flitos.Kernel.Invariant.Block.{Moves, Single}

-- Between two threads that owe nothing beyond their frames it does not matter which one runs.
hop :
    (k l : Kernel)
    → Sound 4 0 k
    → ((t : ℕ) → (tcb_of l t).preemption ≡ (tcb_of k t).preemption)
    → ((t : ℕ) → frames_of l t ≡ frames_of k t)
    → ((t : ℕ) → census t l ≡ census t k)
    → ((t : ℕ) → contains t k.tcbs ≡ true → contains t l.tcbs ≡ true)
    → l.io ≡ k.io
    → TurnOf k l
    → Moves k l
hop k l s pre frames same kept io turn = record {
  sound = record {
    low = λ t. omega (arith, s.low t, pre t);
    even = λ t. ground (arith, s.even t, pre t, frames t);
    shape = λ t. ground (arith, s.shape t, frames t);
    present = λ t some_place. kept t (s.present t (omega (arith, same t)));
  };
  census_same = same;
  kept = kept;
  io_same = io;
  turn = turn;
}

pub allow_preemption-Returns :
    (k : Kernel) → contains k.running k.tcbs ≡ true → Returns (λ b. Unit {0}) (allow_preemption k)
unfolding allow_preemption
allow_preemption-Returns k there = elim (Bool-cases (is_nil k.tcbs)) [
  | inl nobody ↦ rw nobody (returns tt)
  | inr some_thread ↦ rw (some_thread, there) (returns tt)
]

-- The round robin of the interrupt: the running thread goes to the end of the ready list.
yield_to_next-Moves :
    (w : List ℕ) (k : Kernel)
    → Sound 4 0 k
    → Single k
    → k.ready_list ≡ w
    → Returns (Moves k) (yield_to_next w k)
unfolding yield_to_next debug_context_switch_info thread_switch set_state
yield_to_next-Moves [] k s single e = returns (record {
  sound = s;
  census_same = λ t. refl;
  kept = λ t h. h;
  io_same = refl;
  turn = stays refl (Joins-same _ _ refl);
})
yield_to_next-Moves (next ∷ rest) k s single e =
    let ne : k.running ≢ next = λ same. ground (arith, single k.running, e) in
    rw (ne→== k.running next ne) (
      returns (
        hop k _ s (preemption-marked k k.running next ready) (λ t. ground arith)
          (λ t. omega (arith, count-append t rest (k.running ∷ []), ap (count t) e))
          (λ t there. contains-marked k k.running next ready t ∙ ground arith) refl
          (hands (λ same. ne (sym same))
            (k.running ∷ [], ap (λ x. x ++ (k.running ∷ [])) (sym e)))))

pub in_interrupt_yield-Moves :
    (k : Kernel) → Sound 4 0 k → Single k → Returns (Moves k) (in_interrupt_yield k)
unfolding in_interrupt_yield
in_interrupt_yield-Moves k s single =
    Returns-bind (allow_preemption-Returns k (s.present k.running (ground arith))) λ b _. by b
  where
    by : (b : Bool) → Returns (Moves k) (if b then yield_to_next k.ready_list k else ok k)
    by true = yield_to_next-Moves k.ready_list k s single refl
    by false = returns (record {
      sound = s;
      census_same = λ t. refl;
      kept = λ t h. h;
      io_same = refl;
      turn = stays refl (Joins-same _ _ refl);
    })
