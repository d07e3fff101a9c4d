-- ===== src/Firmware/Clock.antt =====
-- `readMachineTime` and `increaseTimeCompare` of os_kernel/src/utils.h. The four reads of the clock's
-- halves are arguments, and so is the step.
use native.Mathlib.Nat.{mod-lt, div-add-mod, mod-eq_of_lt, mul-mod_right}
use flitos.Base.{
  ℕ, ◌+◌, ◌-◌, ◌*◌, ◌/◌, ◌%◌, ◌^◌, ◌≤◌, ◌<◌, ◌≡◌, ap, ◌∙◌, arith, ◌==◌, leb, if◌then◌else◌,
  Bool-cases, inl, inr, ==→eq, le→leb, ◌≢◌,
}

-- `(h << 32) | l` of two 32-bit halves
abbrev pub joined : ℕ → ℕ → ℕ
joined h l = h * 2 ^ 32 + l

pub machine_time : ℕ → ℕ → ℕ → ℕ → ℕ
machine_time h1 l1 h2 l2 = if h1 == h2 then joined h1 l1 else joined h2 l2

-- The new compare value, on 64 bits, from the clock and the old one.
pub increase_time_compare : ℕ → ℕ → ℕ → ℕ
increase_time_compare step now compare =
    if leb compare now then (now + step - (now - compare) % step) % 2 ^ 64 else compare

-- A clock that does not run backwards, and turns its low half over at most once between the first and
-- the last of the four reads, gives a time between the two.
pub machine_time-between :
    (t₀ t₁ t₂ t₃ : ℕ)
    → t₀ ≤ t₁
    → t₁ ≤ t₂
    → t₂ ≤ t₃
    → t₃ < t₀ + 2 ^ 32
    → (t₀ ≤ machine_time (t₀ / 2 ^ 32) (t₁ % 2 ^ 32) (t₂ / 2 ^ 32) (t₃ % 2 ^ 32))
      × (machine_time (t₀ / 2 ^ 32) (t₁ % 2 ^ 32) (t₂ / 2 ^ 32) (t₃ % 2 ^ 32) ≤ t₃)
unfolding machine_time
machine_time-between t₀ t₁ t₂ t₃ a b c d = elim (Bool-cases ((t₀ / 2 ^ 32) == (t₂ / 2 ^ 32))) [
  | inl same ↦ let e = ==→eq (t₀ / 2 ^ 32) (t₂ / 2 ^ 32) same in rw same (omega arith, omega arith)
  | inr other ↦
      let ne : t₀ / 2 ^ 32 ≢ t₂ / 2 ^ 32 = λ e. ground arith in
      rw other (ground arith, ground arith)
]

-- For a step above 0 and a clock that is not about to turn over, the next compare value lies in the
-- future, at most one step ahead of a clock that had reached the old one, and a multiple of the step
-- away from the old one.
pub increase_time_compare-ahead :
    (step now compare : ℕ)
    → 0 < step
    → compare ≤ now
    → now + step < 2 ^ 64
    → (now < increase_time_compare step now compare)
      × (increase_time_compare step now compare ≤ now + step)
      × ((increase_time_compare step now compare - compare) % step ≡ 0)
unfolding increase_time_compare
increase_time_compare-ahead step now compare pos due small =
    let r : ℕ = (now - compare) % step in
    let q : ℕ = (now - compare) / step in
    let less : r < step = mod-lt (now - compare) pos in
    let split : step * q + r ≡ now - compare = div-add-mod (now - compare) step in
    let n : ℕ = now + step - r in
    let same : n % 2 ^ 64 ≡ n = mod-eq_of_lt (omega arith) in
    let rounds : n - compare ≡ step * (q + 1) = omega arith in
    rw (le→leb compare now due, same)
      (omega arith, omega arith, ap (λ d. d % step) rounds ∙ mul-mod_right step (q + 1))
