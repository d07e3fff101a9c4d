-- ===== src/Kernel/Waking.antt =====
-- What the condition variables wake: `notifyOne` and `notifyAll`.
use flitos.Base.{
  ℕ, zero, suc, ◌≤◌, ◌<◌, ◌≡◌, refl, sym, ◌∙◌, ap, true, arith, List, [], ◌∷◌, ◌++◌, append-nil,
  append_assoc, contains, length, index, index-le-total, Returns, returns, Returns-bind,
  Returns-mono,
}
use flitos.Kernel.State.{Kernel, Cond, new_cond, minus_one, cond_of, put_cond}
use flitos.Kernel.Scheduler.{set_state, resume}
use flitos.Kernel.Sync.{wake_first, notify_one, notify_loop, notify_all}
use flitos.Kernel.Invariant.Census.{count, cond_count}
use flitos.Kernel.Invariant.Sound.{Sound, After, Quiet, Keeps-refl, Keeps-trans}
use flitos.Kernel.Invariant.Preempt.{set_preemption-off, set_preemption-on}
use flitos.Kernel.Invariant.Notify.{wake_first-After, cond_of-put_cond, put_cond-After}

-- The threads `moved` went from the front of the queue of `c` to the end of the ready list, and
-- `rest` is left.
pub record Woken (c : ℕ) (moved rest : List ℕ) (k l : Kernel) : Type 0 where
  pub ready_now : l.ready_list ≡ k.ready_list ++ moved
  pub waiting_now : (cond_of l c).waiting ≡ rest
  pub mutexes_same : l.mutexes ≡ k.mutexes
  pub contexts_same : l.contexts ≡ k.contexts
  pub finished_same : l.finished_list ≡ k.finished_list

-- A thread that waits has an entry.
waits-contains :
    (r e c t : ℕ) (ts : List ℕ) (k : Kernel)
    → Sound r e k
    → (cond_of k c).waiting ≡ t ∷ ts
    → contains t k.tcbs ≡ true
waits-contains r e c t ts k s q = s.present t (
    ground
      (arith, index-le-total (cond_count t) (new_cond minus_one) c k.conds refl, ap (count t) q))

wake_first-Woken :
    (r e c t : ℕ) (ts : List ℕ) (k j : Kernel)
    → Sound r e j
    → Quiet k j
    → (cond_of k c).waiting ≡ t ∷ ts
    → Woken c (t ∷ []) ts k (wake_first c (cond_of k c) (t ∷ ts) j)
unfolding wake_first resume set_state
wake_first-Woken r e c t ts k j s quiet q =
    let same : cond_of j c ≡ cond_of k c = ap (index (new_cond minus_one) c) quiet.conds_same in
    rw (waits-contains r e c t ts j s (ap (λ (x : Cond). x.waiting) same ∙ q)) (record {
      ready_now = ap (λ w. w ++ (t ∷ [])) quiet.ready_same;
      waiting_now =
          ap (λ (x : Cond). x.waiting)
            (cond_of-put_cond c (record (cond_of k c) { waiting = ts }) j);
      mutexes_same = quiet.mutexes_same;
      contexts_same = quiet.contexts_same;
      finished_same = quiet.finished_same;
    })

Woken-Quiet :
    (c : ℕ) (moved rest : List ℕ) (k j l : Kernel)
    → Quiet j l
    → Woken c moved rest k j
    → Woken c moved rest k l
Woken-Quiet c moved rest k j l quiet w = record {
  ready_now = quiet.ready_same ∙ w.ready_now;
  waiting_now = ap (λ t. (index (new_cond minus_one) c t).waiting) quiet.conds_same ∙ w.waiting_now;
  mutexes_same = quiet.mutexes_same ∙ w.mutexes_same;
  contexts_same = quiet.contexts_same ∙ w.contexts_same;
  finished_same = quiet.finished_same ∙ w.finished_same;
}

-- In every state of the invariant, `notify_one` of a condition whose first waiter is `t` moves `t`
-- from its queue to the end of the ready list, and changes no mutex, no stack and not the finished
-- list; the thread goes on.
pub notify_one-Woken :
    (r e c t : ℕ) (ts : List ℕ) (k : Kernel)
    → Sound r e k
    → r ≤ 4
    → e ≤ 7
    → (cond_of k c).waiting ≡ t ∷ ts
    → Returns (λ l. After r e k l × Woken c (t ∷ []) ts k l) (notify_one c k)
unfolding notify_one index
notify_one-Woken r e c t ts k s h small q = rw q (
    Returns-bind (set_preemption-off r e k s h (omega arith)) λ j ((inner, before), quiet).
      let (done, kept) =
        wake_first-After r (suc e) c (cond_of k c) (t ∷ ts) j inner
          (ap (index (new_cond minus_one) c) (sym quiet.conds_same)) q in
      Returns-mono
        (set_preemption-on r e (wake_first c (cond_of k c) (t ∷ ts) j) done h (omega arith))
        λ l ((outer, behind), still). (
          (outer, Keeps-trans before (Keeps-trans kept behind)),
          Woken-Quiet c (t ∷ []) ts k _ l still
              (wake_first-Woken r (suc e) c t ts k j inner quiet q),
        ))

notify_loop-Woken :
    (f r e c : ℕ) (w : List ℕ) (k : Kernel)
    → Sound r e k
    → r ≤ 4
    → e ≤ 7
    → (cond_of k c).waiting ≡ w
    → length w < f
    → Returns (λ l. After r e k l × Woken c w [] k l) (notify_loop f c k)
unfolding notify_loop
notify_loop-Woken zero r e c w k s h small q fuel = absurd (omega arith)
notify_loop-Woken (suc f) r e c [] k s h small q fuel = rw q (
    returns (
      (s, Keeps-refl k),
      record {
        ready_now = sym (append-nil k.ready_list);
        waiting_now = q;
        mutexes_same = refl;
        contexts_same = refl;
        finished_same = refl;
      },
    ))
notify_loop-Woken (suc f) r e c (t ∷ ts) k s h small q fuel = rw q (
    Returns-bind (notify_one-Woken r e c t ts k s h small q) λ j ((inner, keeps), first).
      Returns-mono (notify_loop-Woken f r e c ts j inner h small first.waiting_now (omega arith))
        λ l ((outer, more), others). (
          (outer, Keeps-trans keeps more),
          record {
            ready_now =
                others.ready_now
                ∙ ap (λ x. x ++ ts) first.ready_now
                ∙ append_assoc k.ready_list (t ∷ []) ts;
            waiting_now = others.waiting_now;
            mutexes_same = others.mutexes_same ∙ first.mutexes_same;
            contexts_same = others.contexts_same ∙ first.contexts_same;
            finished_same = others.finished_same ∙ first.finished_same;
          },
        ))

-- In every state of the invariant, `notify_all` moves all the waiters of a condition to the end of
-- the ready list, in the order in which they came, leaves its queue empty, and changes no mutex, no
-- stack and not the finished list; its loop ends, and the thread goes on.
pub notify_all-Woken :
    (r e c : ℕ) (k : Kernel)
    → Sound r e k
    → r ≤ 4
    → e ≤ 7
    → Returns (λ l. After r e k l × Woken c (cond_of k c).waiting [] k l) (notify_all c k)
unfolding notify_all
notify_all-Woken r e c k s h small =
    let (inner, keeps) = put_cond-After r e c k s in
    Returns-mono
      (notify_loop-Woken (suc (length (cond_of k c).waiting)) r e c (cond_of k c).waiting
        (put_cond c (cond_of k c) k) inner h small
        (ap (λ (y : Cond). y.waiting) (cond_of-put_cond c (cond_of k c) k)) (omega arith))
      λ l ((done, more), woken). (
        (done, Keeps-trans keeps more),
        record {
          ready_now = woken.ready_now;
          waiting_now = woken.waiting_now;
          mutexes_same = woken.mutexes_same;
          contexts_same = woken.contexts_same;
          finished_same = woken.finished_same;
        },
      )
