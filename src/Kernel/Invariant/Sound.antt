-- ===== src/Kernel/Invariant/Sound.antt =====
-- The invariant while code runs in the kernel.
use flitos.Base.{
  ℕ, ◌+◌, ◌%◌, ◌^◌, ◌≤◌, ◌<◌, ◌≡◌, refl, sym, ap, true, ◌∙◌, List, [], ◌++◌, append_assoc,
  append-nil, ◌==◌, if◌then◌else◌, contains, length, arith,
}
use flitos.Kernel.State.{Kernel, tcb_of, frames_of}
use flitos.Kernel.Invariant.Debt.{debts, Ordered}
use flitos.Kernel.Invariant.Census.{census}

-- `e` calls of `setPreemption(true)` are still to come in the code that runs, and the rest of the
-- running thread's stack has ranks below `r`.
pub record Sound (r e : ℕ) (k : Kernel) : Type 0 where
  pub low : (t : ℕ) → (tcb_of k t).preemption < 2 ^ 32
  pub even :
      (t : ℕ)
      → ((tcb_of k t).preemption + debts (frames_of k t) + (if k.running == t then e else 0))
          % 2 ^ 32
        ≡ 1
  pub shape : (t : ℕ) → Ordered (if k.running == t then r else 4) (frames_of k t)
  pub present : (t : ℕ) → 0 < census t k → contains t k.tcbs ≡ true

-- Threads join a list at its end.
abbrev pub Joins : List ℕ → List ℕ → Type 0
Joins xs ys = (w : List ℕ) × (ys ≡ xs ++ w)

pub Joins-trans : (xs ys zs : List ℕ) → Joins xs ys → Joins ys zs → Joins xs zs
Joins-trans xs ys zs (v, e) (w, f) = (v ++ w, f ∙ ap (λ x. x ++ w) e ∙ append_assoc xs v w)

pub Joins-same : (xs ys : List ℕ) → ys ≡ xs → Joins xs ys
Joins-same xs ys e = ([], e ∙ sym (append-nil xs))

-- What a piece of code that stays in its thread does.
pub record Keeps (k l : Kernel) : Type 0 where
  pub census_same : (t : ℕ) → census t l ≡ census t k
  pub kept : (t : ℕ) → contains t k.tcbs ≡ true → contains t l.tcbs ≡ true
  pub room : length k.ready_list ≤ length l.ready_list
  pub joins : Joins k.ready_list l.ready_list
  pub running_same : l.running ≡ k.running
  pub io_same : l.io ≡ k.io

pub Keeps-refl : (k : Kernel) → Keeps k k
Keeps-refl k = record {
  census_same = λ t. refl;
  kept = λ t h. h;
  room = omega arith;
  joins = Joins-same _ _ refl;
  running_same = refl;
  io_same = refl;
}

pub Keeps-trans : {k l m : Kernel} → Keeps k l → Keeps l m → Keeps k m
Keeps-trans a b = record {
  census_same = λ t. b.census_same t ∙ a.census_same t;
  kept = λ t h. b.kept t (a.kept t h);
  room = omega (arith, a, b);
  joins = Joins-trans _ _ _ a.joins b.joins;
  running_same = b.running_same ∙ a.running_same;
  io_same = b.io_same ∙ a.io_same;
}

abbrev pub After : ℕ → ℕ → Kernel → Kernel → Type 0
After r e k l = Sound r e l × Keeps k l

-- Only the table of threads differs.
pub record Quiet (k l : Kernel) : Type 0 where
  pub ready_same : l.ready_list ≡ k.ready_list
  pub mutexes_same : l.mutexes ≡ k.mutexes
  pub conds_same : l.conds ≡ k.conds
  pub finished_same : l.finished_list ≡ k.finished_list
  pub contexts_same : l.contexts ≡ k.contexts
  pub counter_same : l.thread_counter ≡ k.thread_counter
  pub mutex_seq_same : l.mutex_seq ≡ k.mutex_seq
  pub cond_seq_same : l.cond_seq ≡ k.cond_seq
  pub data_same : l.io ≡ k.io
  pub systick_same : l.systick ≡ k.systick
  pub mtx_for_sleep_same : l.mtx_for_sleep ≡ k.mtx_for_sleep

abbrev pub Calm : ℕ → ℕ → Kernel → Kernel → Type 0
Calm r e k l = After r e k l × Quiet k l
