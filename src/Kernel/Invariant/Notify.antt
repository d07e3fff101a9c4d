-- ===== src/Kernel/Invariant/Notify.antt =====
-- `notifyOne` and `notifyAll`.
use flitos.Base.{
  ℕ, zero, suc, ◌≤◌, ◌<◌, ◌≡◌, refl, sym, ◌∙◌, ap, inl, inr, ◌-◌, arith, List, [], ◌∷◌,
  if◌then◌else◌, contains, length, index, index-insert, ok, ◌>>=◌, Returns, returns, Returns-bind,
  Returns-mono, Bool-cases,
}
use flitos.Kernel.State.{Kernel, Cond, cond_of, new_cond, put_cond, minus_one}
use flitos.Kernel.Scheduler.{set_state, resume, is_nil}
use flitos.Kernel.Sync.{wake_first, notify_one, notify_loop, notify_all}
use flitos.Kernel.Invariant.Census.{count, census-put_cond}
use flitos.Kernel.Invariant.Sound.{Sound, After, Keeps-trans, Keeps-refl}
use flitos.Kernel.Invariant.Preempt.{bracket}
use flitos.Kernel.Invariant.Locks.{requeue, settle}

pub wake_first-After :
    (r e c : ℕ) (x : Cond) (w : List ℕ) (k : Kernel)
    → Sound r e k
    → x ≡ cond_of k c
    → x.waiting ≡ w
    → After r e k (wake_first c x w k)
unfolding wake_first
wake_first-After r e c x [] k s eq q =
    settle r e k (put_cond c x k) s refl refl refl refl refl
      λ t. omega (arith, census-put_cond t c x k, ap (λ (y : Cond). count t y.waiting) eq)
wake_first-After r e c x (next ∷ rest) k s eq q =
    requeue r e next k (put_cond c (record x { waiting = rest }) k) s refl refl refl refl refl λ u.
      omega (
        arith,
        census-put_cond u c (record x { waiting = rest }) k,
        ap (λ (y : Cond). count u y.waiting) eq,
        ap (count u) q,
      )

pub cond_of-put_cond : (c : ℕ) (x : Cond) (k : Kernel) → cond_of (put_cond c x k) c ≡ x
cond_of-put_cond c x k = ground (arith, index-insert (new_cond minus_one) c x k.conds c)

-- The queue of the condition is one shorter.
queue-wake_first :
    (c : ℕ) (x : Cond) (w : List ℕ) (k : Kernel)
    → x.waiting ≡ w
    → length (cond_of (wake_first c x w k) c).waiting ≡ length w - 1
unfolding wake_first resume set_state
queue-wake_first c x [] k q =
    ap (λ (y : Cond). length y.waiting) (cond_of-put_cond c x k) ∙ ap length q
queue-wake_first c x (next ∷ rest) k q = elim (Bool-cases (contains next k.tcbs)) [
  | inl there ↦ rw there (
      ap (λ (y : Cond). length y.waiting) (cond_of-put_cond c (record x { waiting = rest }) k)
      ∙ omega arith)
  | inr absent ↦ rw absent (
      ap (λ (y : Cond). length y.waiting) (cond_of-put_cond c (record x { waiting = rest }) k)
      ∙ omega arith)
]

pub notify_one-After :
    (r e c : ℕ) (k : Kernel)
    → Sound r e k
    → r ≤ 4
    → e ≤ 7
    → Returns
        (λ l. After r e k l × (length (cond_of l c).waiting ≡ length (cond_of k c).waiting - 1))
        (notify_one c k)
unfolding notify_one
notify_one-After r e c k s h small =
    Returns-mono
      (bracket r e k (wake_first c (cond_of k c) (cond_of k c).waiting) s h small λ j inner quiet.
        wake_first-After r (suc e) c (cond_of k c) (cond_of k c).waiting j inner
          (ap (index (new_cond minus_one) c) (sym quiet.conds_same)) refl)
      λ l (after, (j, quiet, still)). (
        after,
        ap (λ t. length (index (new_cond minus_one) c t).waiting) still.conds_same
            ∙ queue-wake_first c (cond_of k c) (cond_of k c).waiting j refl,
      )

notify_loop-After :
    (f r e c : ℕ) (k : Kernel)
    → Sound r e k
    → r ≤ 4
    → e ≤ 7
    → length (cond_of k c).waiting < f
    → Returns (After r e k) (notify_loop f c k)
unfolding notify_loop
notify_loop-After zero r e c k s h small fuel = absurd (omega arith)
notify_loop-After (suc f) r e c k s h small fuel =
    go (cond_of k c).waiting refl λ l inner less. notify_loop-After f r e c l inner h small less
  where
    go :
        (w : List ℕ)
        → (cond_of k c).waiting ≡ w
        → ((l : Kernel)
            → Sound r e l
            → length (cond_of l c).waiting < f
            → Returns (After r e l) (notify_loop f c l))
        → Returns
            (After r e k)
            (let rest = notify_one c k >>= notify_loop f c in if is_nil w then ok k else rest)
    go [] q later = returns (s, Keeps-refl k)
    go (t ∷ ts) q later =
        Returns-bind (notify_one-After r e c k s h small) λ l ((inner, keeps), shorter).
          Returns-mono (later l inner (omega (arith, shorter, ap length q)))
            λ m (done, more). (done, Keeps-trans keeps more)

-- `id_map_[id]` inserts a condition where there is none.
pub put_cond-After :
    (r e c : ℕ) (k : Kernel) → Sound r e k → After r e k (put_cond c (cond_of k c) k)
put_cond-After r e c k s =
    settle r e k (put_cond c (cond_of k c) k) s refl refl refl refl refl
      λ t. omega (arith, census-put_cond t c (cond_of k c) k)

-- `notifyAll` ends, and leaves its thread alone.
pub notify_all-After :
    (r e c : ℕ) (k : Kernel) → Sound r e k → r ≤ 4 → e ≤ 7 → Returns (After r e k) (notify_all c k)
unfolding notify_all
notify_all-After r e c k s h small =
    let (inner, keeps) = put_cond-After r e c k s in
    Returns-mono
      (notify_loop-After (suc (length (cond_of k c).waiting)) r e c (put_cond c (cond_of k c) k)
        inner h small
        (omega (arith, ap (λ (y : Cond). length y.waiting) (cond_of-put_cond c (cond_of k c) k))))
      λ l (done, more). (done, Keeps-trans keeps more)
