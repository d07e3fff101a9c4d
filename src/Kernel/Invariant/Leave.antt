-- ===== src/Kernel/Invariant/Leave.antt =====
-- `yield`, `suspend` and `exit`.
use flitos.Base.{
  ℕ, ◌+◌, ◌≤◌, ◌<◌, ◌≡◌, refl, sym, ◌∙◌, ap, ap₂, ◌++◌, subst, subst₂, true, arith, List, [], ◌∷◌,
  length, Returns, Returns-bind, Returns-mono,
}
use flitos.Kernel.State.{
  Kernel, Context, switched, frames_of, ThreadState, ready, waiting, finished,
}
use flitos.Kernel.Scheduler.{
  switchable, switch_ready, switch_current_thread_to, suspend, yield_thread, exit,
}
use flitos.Kernel.Invariant.Census.{census, hit, count}
use flitos.Kernel.Invariant.Sound.{Sound, Quiet}
use flitos.Kernel.Invariant.Preempt.{set_preemption-off}
use flitos.Kernel.Invariant.Switch.{
  Switched, Gone, ready_tail, finished_tail, parked, switch_to_next-Switched,
}

switch_ready-Switched :
    (r : ℕ) (s : ThreadState) (l : List ℕ) (k : Kernel)
    → Sound r 1 k
    → r ≤ 3
    → switchable s ≡ true
    → k.ready_list ≡ l
    → count k.running l ≡ 0
    → 0 < length l
    → Returns (Switched s k) (switch_ready s l k)
unfolding switch_ready
switch_ready-Switched r s [] k sound h good e alone others = absurd (omega arith)
switch_ready-Switched r s (next ∷ rest) k sound h good e alone others =
    switch_to_next-Switched r s next rest k sound h good e (ground arith)

Gone-Quiet :
    (s : ThreadState) (k j l : Kernel) → j.running ≡ k.running → Quiet k j → Gone s j l → Gone s k l
Gone-Quiet s k j l run quiet gone = record {
  rest = gone.rest;
  chosen = sym quiet.ready_same ∙ gone.chosen;
  ready_now = gone.ready_now ∙ ap (λ t. gone.rest ++ ready_tail s t) run;
  finished_now = gone.finished_now ∙ ap₂ (λ fs t. fs ++ finished_tail s t) quiet.finished_same run;
  mutexes_same = gone.mutexes_same ∙ quiet.mutexes_same;
  conds_same = gone.conds_same ∙ quiet.conds_same;
  data_kept = gone.data_kept ∙ quiet.data_same;
  frames_now =
      subst (λ t. frames_of l t ≡ switched ∷ frames_of k t) run
        (gone.frames_now
          ∙ ap (λ (c : ℕ → Context). switched ∷ (c j.running).frames) quiet.contexts_same);
}

pub switch_current_thread_to-Switched :
    (r : ℕ) (s : ThreadState) (k : Kernel)
    → Sound r 0 k
    → r ≤ 3
    → switchable s ≡ true
    → count k.running k.ready_list ≡ 0
    → 0 < length k.ready_list
    → Returns (Switched s k) (switch_current_thread_to s k)
unfolding switch_current_thread_to
switch_current_thread_to-Switched r s k sound h good alone others =
    Returns-bind (set_preemption-off r 0 k sound (omega arith) (omega arith))
      λ j ((inner, keeps), quiet). rw good (
        Returns-mono
          (switch_ready-Switched r s j.ready_list j inner h good refl
            (subst₂ (λ u l. count u l ≡ 0) (sym keeps.running_same) (sym quiet.ready_same) alone)
            (omega (arith, keeps)))
          λ l (outer, counts, kept, gone). (
            outer,
            λ t.
                subst (λ u. census t l + hit t u ≡ census t k + parked s t u) keeps.running_same
                  (counts t ∙ ap (λ n. n + parked s t j.running) (keeps.census_same t)),
            λ t there. kept t (keeps.kept t there),
            Gone-Quiet s k j l keeps.running_same quiet gone,
          ))

-- A thread that yields stays in the ready list: everybody is where they were.
pub yield_thread-Switched :
    (r : ℕ) (k : Kernel)
    → Sound r 0 k
    → r ≤ 3
    → count k.running k.ready_list ≡ 0
    → 0 < length k.ready_list
    → Returns (Switched ready k) (yield_thread k)
unfolding yield_thread
yield_thread-Switched r k s h alone others =
    switch_current_thread_to-Switched r ready k s h refl alone others

pub suspend-Switched :
    (r : ℕ) (k : Kernel)
    → Sound r 0 k
    → r ≤ 3
    → count k.running k.ready_list ≡ 0
    → 0 < length k.ready_list
    → Returns (Switched waiting k) (suspend k)
unfolding suspend
suspend-Switched r k s h alone others =
    switch_current_thread_to-Switched r waiting k s h refl alone others

pub exit-Switched :
    (r : ℕ) (k : Kernel)
    → Sound r 0 k
    → r ≤ 3
    → count k.running k.ready_list ≡ 0
    → 0 < length k.ready_list
    → Returns (Switched finished k) (exit k)
unfolding exit
exit-Switched r k s h alone others =
    switch_current_thread_to-Switched r finished k s h refl alone others
