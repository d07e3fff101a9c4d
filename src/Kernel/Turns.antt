-- ===== src/Kernel/Turns.antt =====
-- Whose turn it is: `yield`, the end of a thread, and the timer interrupt.
use flitos.Base.{
  Table, ℕ, ◌+◌, ◌%◌, ◌^◌, ◌≤◌, ◌≡◌, ◌≢◌, refl, sym, ◌∙◌, ap, ap₂, subst, true, false, arith, List,
  [], ◌∷◌, ◌++◌, append-nil, contains, length, ok, Returns, ne→==, returns, Returns-bind,
  Returns-mono, ◌>>=◌,
}
use flitos.Kernel.State.{
  Kernel, Tcb, Context, switched, handler, tcb_of, frames_of, cond_of, push_frame,
}
use flitos.Kernel.Scheduler.{
  yield_thread, exit, allow_preemption, is_nil, in_interrupt_yield, yield_to_next,
  debug_context_switch_info, thread_switch, set_state,
}
use flitos.Kernel.Sync.{update_tick}
use flitos.Firmware.Ticks.{handle_time_interrupt-Live}
use flitos.Kernel.Pipes.{put_io}
use flitos.Kernel.Interrupts.{Event, timer_part, count_requests, interrupt}
use flitos.Kernel.Invariant.Transfer.{put_io-Sound}
use flitos.Kernel.Machine.{notify_joiners}
use flitos.Kernel.Invariant.Debt.{debts}
use flitos.Kernel.Invariant.Census.{census, count}
use flitos.Kernel.Invariant.Sound.{Sound}
use flitos.Kernel.Invariant.Leave.{yield_thread-Switched, exit-Switched}
use flitos.Kernel.Invariant.Locks.{settle}
use flitos.Kernel.Invariant.Block.{alone_of}
use flitos.Kernel.Invariant.Calls.{user-Sound}
use flitos.Kernel.Safety.{Inv}
use flitos.Kernel.Waking.{notify_all-Woken}

tail_of : List ℕ → List ℕ
tail_of [] = []
tail_of (t ∷ ts) = ts

head_of : ℕ → List ℕ → ℕ
head_of d [] = d
head_of d (t ∷ ts) = t

pub cons-head : {t u : ℕ} {ts us : List ℕ} → t ∷ ts ≡ u ∷ us → t ≡ u
unfolding head_of
cons-head {t} e = ap (head_of t) e

pub cons-tail : {t u : ℕ} {ts us : List ℕ} → t ∷ ts ≡ u ∷ us → ts ≡ us
unfolding tail_of
cons-tail e = ap tail_of e

-- In a state of the invariant with the ready list `next ∷ rest`, a thread's own code that yields
-- gives way to `next`, and joins the end of the ready list, with the switch on its stack.
pub yield-turn :
    (next : ℕ) (rest : List ℕ) (k : Kernel)
    → Inv k
    → frames_of k k.running ≡ []
    → k.ready_list ≡ next ∷ rest
    → Returns
        (λ l.
          (l.running ≡ next)
          × (l.ready_list ≡ rest ++ (k.running ∷ []))
          × (l.finished_list ≡ k.finished_list)
          × (frames_of l k.running ≡ switched ∷ []))
        (yield_thread k)
yield-turn next rest k inv user e =
    Returns-mono
      (yield_thread-Switched 1 k (user-Sound 1 k inv.sound user) (omega arith)
        (alone_of k (inv.single k.running)) (omega (arith, ap length e)))
      λ l (sound, places, kept, gone).
        let turn = sym e ∙ gone.chosen in
        (
          sym (cons-head turn),
          gone.ready_now ∙ ap (λ x. x ++ (k.running ∷ [])) (sym (cons-tail turn)),
          gone.finished_now ∙ append-nil k.finished_list,
          gone.frames_now ∙ ap (λ fs. switched ∷ fs) user,
        )

-- In a state of the invariant with the ready list `next ∷ rest`, a thread whose function returned,
-- and whose `notifyAll` and `thread_exit` no interrupt parts, wakes all that wait in its join
-- condition, in their order, behind the ready threads; it is the last of the finished list and not
-- in the ready list, its pending code is the switch that it does not come back from, and `next` runs.
pub finish-turn :
    (next : ℕ) (rest : List ℕ) (k : Kernel)
    → Inv k
    → frames_of k k.running ≡ []
    → k.ready_list ≡ next ∷ rest
    → Returns
        (λ l.
          (l.running ≡ next)
          × (l.ready_list ≡ rest ++ (cond_of k (tcb_of k k.running).cond_for_join).waiting)
          × (count k.running l.ready_list ≡ 0)
          × (l.finished_list ≡ k.finished_list ++ (k.running ∷ []))
          × (frames_of l k.running ≡ switched ∷ []))
        (notify_joiners k >>= exit)
unfolding notify_joiners
finish-turn next rest k inv user e =
    let s = user-Sound 1 k inv.sound user in
    let w : List ℕ = (cond_of k (tcb_of k k.running).cond_for_join).waiting in
    rw (s.present k.running (ground arith)) (
      Returns-bind
        (notify_all-Woken 1 0 (tcb_of k k.running).cond_for_join k s (omega arith) (omega arith))
        λ j ((inner, keeps), woken).
          let alone =
            alone_of j (omega (arith, keeps.census_same j.running, inv.single j.running)) in
          let there : j.ready_list ≡ next ∷ (rest ++ w) = woken.ready_now ∙ ap (λ x. x ++ w) e in
          Returns-mono
            (exit-Switched 1 j inner (omega arith) alone (omega (arith, ap length there)))
            λ l (outer, places, kept, gone).
              let turn = sym there ∙ gone.chosen in
              let now : l.ready_list ≡ rest ++ w =
                gone.ready_now ∙ append-nil gone.rest ∙ sym (cons-tail turn) in
              (
                sym (cons-head turn),
                now,
                ap (count k.running) now
                    ∙ omega (
                      arith,
                      subst (λ u. count u j.ready_list ≡ 0) keeps.running_same alone,
                      ap (count k.running) there,
                    ),
                gone.finished_now
                    ∙ ap₂ (λ u fs. fs ++ (u ∷ [])) keeps.running_same woken.finished_same,
                subst (λ u. frames_of l u ≡ switched ∷ frames_of j u) keeps.running_same
                      gone.frames_now
                    ∙ ap (λ (c : ℕ → Context). switched ∷ (c k.running).frames) woken.contexts_same
                    ∙ ap (λ fs. switched ∷ fs) user,
              ))

not_nil : (t : ℕ) (k : Kernel) → contains t k.tcbs ≡ true → is_nil k.tcbs ≡ false
unfolding contains
not_nil t k there = by k.tcbs there
  where
    by : (x : Table Tcb) → contains t x ≡ true → is_nil x ≡ false
    by [] h = cc
    by (p ∷ x) h = refl

allowed :
    (k : Kernel)
    → contains k.running k.tcbs ≡ true
    → (tcb_of k k.running).preemption ≡ 1
    → allow_preemption k ≡ ok true
unfolding allow_preemption
allowed k there on = rw (not_nil k.running k there, there, on)

rotates :
    (next : ℕ) (rest : List ℕ) (k : Kernel)
    → k.running ≢ next
    → k.ready_list ≡ next ∷ rest
    → allow_preemption k ≡ ok true
    → Returns
        (λ l.
          (l.running ≡ next)
          × (l.ready_list ≡ rest ++ (k.running ∷ []))
          × (frames_of l k.running ≡ frames_of k k.running))
        (in_interrupt_yield k)
unfolding in_interrupt_yield yield_to_next debug_context_switch_info thread_switch set_state
rotates next rest k ne e on =
    rw (on, e, ne→== k.running next ne) (returns (refl, refl, ground arith))

-- In a state of the invariant with the ready list `next ∷ rest`, the timer interrupt of a thread's
-- own code takes the processor from it: `next` runs, those that slept are ready behind `rest`, and
-- the interrupted thread is the last, with the interrupt handler on its stack.
pub interrupt-turn :
    (d : Event) (next : ℕ) (rest : List ℕ) (k : Kernel)
    → Inv k
    → frames_of k k.running ≡ []
    → k.ready_list ≡ next ∷ rest
    → d.mcause ≡ 2 ^ 31 + 7
    → Returns
        (λ l.
          (l.running ≡ next)
          × (l.ready_list ≡ (rest ++ (cond_of k k.cond_for_sleep).waiting) ++ (k.running ∷ []))
          × (frames_of l k.running ≡ handler ∷ []))
        (interrupt d k)
unfolding interrupt timer_part update_tick count_requests
interrupt-turn d next rest k inv user e cause =
    let s = user-Sound 3 k inv.sound user in
    let w : List ℕ = (cond_of k k.cond_for_sleep).waiting in
    let start : Kernel = record k {
      nest_critical = (k.nest_critical + 1) % 2 ^ 32;
      mie = false;
      systick = (k.systick + 1) % 2 ^ 32;
    } in
    let (first, before) = settle 3 0 k start s refl refl refl refl refl (λ t. refl) in
    Returns-bind
      (handle_time_interrupt-Live d.garbage d.mcause k.io.call_back_cnt k.io.handlers inv.live)
      λ r (list, flag).
        rw (flag, cause)
          (Returns-bind
            (notify_all-Woken 3 0 k.cond_for_sleep (put_io _ start) (put_io-Sound 3 0 _ start first)
              (omega arith) (omega arith))
            λ j ((inner, keeps), woken).
              let still : frames_of j j.running ≡ [] =
                ap₂ (λ (c : ℕ → Context) t. (c t).frames) woken.contexts_same keeps.running_same
                ∙ user in
              let there : j.ready_list ≡ next ∷ (rest ++ w) =
                woken.ready_now ∙ ap (λ x. x ++ w) e in
              let single : census j.running j ≤ 1 =
                omega (arith, keeps.census_same j.running, inv.single j.running) in
              let on =
                allowed (push_frame handler (put_io (count_requests d j.io) j))
                  (inner.present j.running (ground arith)) (owing_none 3 j inner still) in
              Returns-mono
                (rotates next (rest ++ w) (push_frame handler (put_io (count_requests d j.io) j))
                  (λ same. ground (arith, single, there)) there on)
                λ l (turn, now, frames). (
                  turn,
                  now ∙ ap (λ u. (rest ++ w) ++ (u ∷ [])) keeps.running_same,
                  subst (λ u. frames_of l u ≡ frames_of (push_frame handler j) u) keeps.running_same
                        frames
                      ∙ pushed j k.running keeps.running_same still,
                ))
  where
    owing_none :
        (r : ℕ) (j : Kernel)
        → Sound r 0 j
        → frames_of j j.running ≡ []
        → (tcb_of j j.running).preemption ≡ 1
    owing_none r j s e =
        let low = s.low j.running in
        let even = s.even j.running in
        let paid : debts (frames_of j j.running) ≡ 0 = ap debts e in ground arith

    pushed :
        (j : Kernel) (u : ℕ)
        → j.running ≡ u
        → frames_of j j.running ≡ []
        → frames_of (push_frame handler j) u ≡ handler ∷ []
    pushed j u same e = ground (arith, e)
