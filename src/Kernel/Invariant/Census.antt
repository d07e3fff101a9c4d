-- ===== src/Kernel/Invariant/Census.antt =====
-- Where a thread is: how often it stands as the running thread and in the kernel's queues.
use flitos.Base.{
  ℕ, ◌+◌, ◌≡◌, refl, List, [], ◌∷◌, ◌++◌, arith, ◌==◌, if◌then◌else◌, total, total-insert,
}
use flitos.Kernel.State.{
  Mutex, new_mutex, Cond, new_cond, minus_one, Kernel, mutex_of, cond_of, put_mutex, put_cond,
}

-- 1 where the two ids are the same.
abbrev pub hit : ℕ → ℕ → ℕ
hit t u = if u == t then 1 else 0

abbrev pub count : ℕ → List ℕ → ℕ
count t [] = 0
count t (u ∷ us) = hit t u + count t us

pub count-append : (t : ℕ) (us vs : List ℕ) → count t (us ++ vs) ≡ count t us + count t vs
count-append t [] vs = omega arith
count-append t (u ∷ us) vs = omega (arith, count-append t us vs)

abbrev pub mutex_count : ℕ → Mutex → ℕ
mutex_count t m = count t m.waiting

abbrev pub cond_count : ℕ → Cond → ℕ
cond_count t c = count t c.waiting

abbrev pub census : ℕ → Kernel → ℕ
census t k =
    hit t k.running
    + count t k.ready_list
    + count t k.finished_list
    + total (mutex_count t) k.mutexes
    + total (cond_count t) k.conds

pub census-put_mutex :
    (t m : ℕ) (x : Mutex) (k : Kernel)
    → census t (put_mutex m x k) + count t (mutex_of k m).waiting ≡ census t k + count t x.waiting
census-put_mutex t m x k = omega (arith, total-insert (mutex_count t) new_mutex m x k.mutexes refl)

pub census-put_cond :
    (t c : ℕ) (x : Cond) (k : Kernel)
    → census t (put_cond c x k) + count t (cond_of k c).waiting ≡ census t k + count t x.waiting
census-put_cond t c x k =
    omega (arith, total-insert (cond_count t) (new_cond minus_one) c x k.conds refl)
