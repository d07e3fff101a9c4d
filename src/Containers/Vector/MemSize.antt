-- ===== src/Containers/Vector/MemSize.antt =====
-- `findMemSize`: when its loop ends, and with what.
use native.Mathlib.Nat.{pow-suc, one-le-pow}
use flitos.Base.{
  ℕ, zero, suc, ◌*◌, ◌%◌, ◌^◌, ◌≤◌, ◌<◌, ◌≡◌, refl, ap, ◌⊎◌, inl, inr, arith, ltb, Bool-cases,
  lt→ltb, le→ltb, ltb→lt, hang, Returns, returns, Returns-mono,
}
use flitos.Containers.Vector.{find_mem_loop, find_mem_size}

-- The least power of two from `ret` on that is at least `val`, up to the doubling.
abbrev pub Fits : ℕ → ℕ → ℕ → Type 0
Fits ret val r = (val ≤ r) × (r ≤ 2 ^ 31) × ((r ≡ ret) ⊎ (r < 2 * val))

-- `ret` is 2^(31 - m).
double : (ret m : ℕ) → ret * 2 ^ suc m ≡ 2 ^ 31 → ret * 2 * 2 ^ m ≡ 2 ^ 31
double ret m e = omega (arith, ap (λ (t : ℕ). ret * t) (pow-suc 2 m))

below : (ret m : ℕ) → ret * 2 ^ m ≡ 2 ^ 31 → ret ≤ 2 ^ 31
below ret m e = let one-le : 1 ≤ 2 ^ m = one-le-pow m 2 (omega arith) in grind arith

find_mem_loop-Fits :
    (m ret val : ℕ)
    → ret * 2 ^ m ≡ 2 ^ 31
    → val ≤ 2 ^ 31
    → Returns (Fits ret val) (find_mem_loop (suc m) ret val)
unfolding find_mem_loop
find_mem_loop-Fits zero ret val e small =
    rw (le→ltb ret val (omega arith)) (returns (omega arith, omega arith, inl refl))
find_mem_loop-Fits (suc m) ret val e small = elim (Bool-cases (ltb ret val)) [
  | inl more ↦
      let lt : ret < val = ltb→lt ret val more in
      let low : ret * 2 ≤ 2 ^ 31 = below (ret * 2) m (double ret m e) in
      let same : ret * 2 % 2 ^ 32 ≡ ret * 2 = omega arith in
      rw (more, same)
        (Returns-mono (find_mem_loop-Fits m (ret * 2) val (double ret m e) small)
          λ r fits. ground arith)
  | inr done ↦ rw done (returns (ground arith, below ret (suc m) e, inl refl))
]

-- For a size up to 2^31 the loop ends, with a size that fits and is less than twice as large.
pub find_mem_size-Fits : (val : ℕ) → val ≤ 2 ^ 31 → Returns (Fits 1 val) (find_mem_size val)
unfolding find_mem_size
find_mem_size-Fits val small = find_mem_loop-Fits 31 1 val (omega arith) small

find_mem_loop-zero : (f val : ℕ) → 0 < val → find_mem_loop f 0 val ≡ hang
unfolding find_mem_loop
find_mem_loop-zero zero val h = refl
find_mem_loop-zero (suc f) val h = ground (arith, find_mem_loop-zero f val)

find_mem_loop-hang :
    (m f ret val : ℕ) → ret * 2 ^ m ≡ 2 ^ 31 → 2 ^ 31 < val → find_mem_loop f ret val ≡ hang
unfolding find_mem_loop
find_mem_loop-hang m zero ret val e h = refl
find_mem_loop-hang zero (suc f) ret val e h =
    let lt : ret < val = omega arith in
    let z : ret * 2 % 2 ^ 32 ≡ 0 = omega arith in
    rw (lt→ltb ret val lt, z) (find_mem_loop-zero f val (omega arith))
find_mem_loop-hang (suc m) (suc f) ret val e h =
    let low : ret * 2 ≤ 2 ^ 31 = below (ret * 2) m (double ret m e) in
    let lt : ret < val = omega arith in
    let same : ret * 2 % 2 ^ 32 ≡ ret * 2 = omega arith in
    rw (lt→ltb ret val lt, same) (find_mem_loop-hang m f (ret * 2) val (double ret m e) h)

-- Above 2^31 the loop never ends, however long it runs.
pub find_mem_size-hang : (f val : ℕ) → 2 ^ 31 < val → find_mem_loop f 1 val ≡ hang
find_mem_size-hang f val h = find_mem_loop-hang 31 f 1 val (omega arith) h
