-- ===== src/Containers/Deque/Valid.antt =====
-- The representation invariant of the deque, and the sequence of cells that a valid one holds.
use native.Mathlib.Nat.{mod-eq_of_lt, mod-eq-sub-mod}
use mathlib.Core.Path.{ap₂}
use flitos.Base.{
  ℕ, zero, suc, ◌+◌, ◌-◌, ◌%◌, ◌^◌, ◌≤◌, ◌<◌, ◌≡◌, refl, ap, inl, inr, Option, none, List, [], ◌∷◌,
  ◌++◌, arith, ltb, ◌==◌, if◌then◌else◌, Bool-cases, false, length, get_or, ok,
}
use flitos.Containers.Vector.{Vector}
use flitos.Containers.Vector.Laws
use flitos.Containers.Deque.{Deque, size, wrap, empty_deque}

-- `f 0`, `f 1`, up to `f (k - 1)`.
abbrev pub tabulate {ℓ} : {A : Type ℓ} → (ℕ → A) → ℕ → List A
tabulate f zero = []
tabulate f (suc k) = f 0 ∷ tabulate (λ i. f (suc i)) k

module _ {ℓ} {A : Type ℓ} where
  pub tabulate-suc : (f : ℕ → A) (k : ℕ) → tabulate f (suc k) ≡ tabulate f k ++ (f k ∷ [])
  tabulate-suc f zero = refl
  tabulate-suc f (suc k) = ap (◌∷◌ (f 0)) (tabulate-suc (λ i. f (suc i)) k)

  pub tabulate_ext :
      (f g : ℕ → A) (k : ℕ) → ((i : ℕ) → i < k → f i ≡ g i) → tabulate f k ≡ tabulate g k
  tabulate_ext f g zero h = refl
  tabulate_ext f g (suc k) h =
      ap₂ ◌∷◌ (h 0 (omega arith))
        (tabulate_ext (λ i. f (suc i)) (λ i. g (suc i)) k (λ i lt. h (suc i) (omega arith)))

  pub length-tabulate : (f : ℕ → A) (k : ℕ) → length (tabulate f k) ≡ k
  length-tabulate f zero = refl
  length-tabulate f (suc k) = ap suc (length-tabulate (λ i. f (suc i)) k)

pub get_or-tabulate {ℓ} :
    {A : Type ℓ} (f : ℕ → A) (k i : ℕ) (d : A) → i < k → get_or (tabulate f k) i d ≡ f i
get_or-tabulate f zero i d h = absurd (omega arith)
get_or-tabulate f (suc k) zero d h = refl
get_or-tabulate f (suc k) (suc i) d h = get_or-tabulate (λ i. f (suc i)) k i d (omega arith)

-- The index of the element `i` places behind `b`, in an array of `s` slots.
abbrev pub position : ℕ → ℕ → ℕ → ℕ
position s b i = if ltb (b + i) s then b + i else b + i - s

round : (i s : ℕ) → i < s + s → i % s ≡ position s 0 i
round i s h = elim (Bool-cases (ltb i s)) [
  | inl inside ↦ ground (arith, mod-eq_of_lt {n = i} {m = s})
  | inr past ↦ ground (arith, mod-eq-sub-mod {n = i} {m = s}, mod-eq_of_lt {n = i - s} {m = s})
]

module _ {ℓ} {A : Type ℓ} where
  pub record IsValid (d : Deque A) : Type ℓ where
    pub vector : Laws.IsValid d.storage
    pub begin_in : d.idx_begin ≤ d.storage.size - 1
    pub end_in : d.idx_end ≤ d.storage.size - 1

  -- The cells from `idx_begin_` up to `idx_end_`, going round at the end of the storage.
  abbrev pub cell : Deque A → ℕ → Option A
  cell d i = get_or d.storage.mem (position d.storage.size d.idx_begin i) none

  abbrev pub contents : Deque A → List (Option A)
  contents d = tabulate (cell d) (size d)

  -- One more slot is taken as long as the deque is not full, and the size is exact.
  pub size-le : (d : Deque A) → IsValid d → size d ≤ d.storage.size - 1
  unfolding size
  size-le d v = grind arith

  pub wrap-ok :
      (i : ℕ) (w : Vector A)
      → Laws.IsValid w
      → i < w.size + w.size
      → wrap i w ≡ ok (position w.size 0 i)
  unfolding wrap
  wrap-ok i w v h =
      let plain : i % 2 ^ 32 ≡ i = omega (arith, v) in
      let some_slot : (w.size == 0) ≡ false = ground arith in
      rw (some_slot, plain) (ap ok (round i w.size h))

  pub empty_deque-IsValid : IsValid (empty_deque {A = A})
  unfolding empty_deque
  empty_deque-IsValid = record {
    vector = record { within = omega arith; block = refl; small = omega arith };
    begin_in = omega arith;
    end_in = omega arith;
  }
