-- ===== src/Kernel/Copies.antt =====
-- `read` of a pipe: what it leaves at the caller's buffer.
use flitos.Base.{
  ℕ, zero, suc, ◌+◌, ◌%◌, ◌^◌, ◌≤◌, ◌<◌, ◌≡◌, ◌≢◌, refl, ◌∙◌, ap, ap₂, arith, ==_refl,
  if◌then◌else◌, List, [], ◌∷◌, length,
}
use flitos.Firmware.Memory.{Bytes, store}
use flitos.Kernel.Pipes.{load_bytes, store_bytes, taken}

-- An address that the bytes do not reach keeps its value.
store_bytes-apart :
    (vs : List ℕ) (b a : ℕ) (m : Bytes)
    → ((i : ℕ) → i < length vs → (b + i) % 2 ^ 32 ≢ a)
    → b < 2 ^ 32
    → store_bytes vs b m a ≡ m a
unfolding store_bytes
store_bytes-apart [] b a m apart h = refl
store_bytes-apart (v ∷ vs) b a m apart h =
    store_bytes-apart vs ((b + 1) % 2 ^ 32) a (store b v m)
      (λ i small same. apart (i + 1) (omega arith) (omega arith)) (omega arith)
    ∙ ground (arith, apart 0)

-- Bytes that are stored at an address, at most 2^32 of them, are there.
pub load-store_bytes :
    (vs : List ℕ) (b : ℕ) (m : Bytes)
    → b < 2 ^ 32
    → length vs ≤ 2 ^ 32
    → load_bytes (length vs) b (store_bytes vs b m) ≡ vs
unfolding load_bytes store_bytes
load-store_bytes [] b m h few = refl
load-store_bytes (v ∷ vs) b m h few =
    let next : ℕ = (b + 1) % 2 ^ 32 in
    ap₂ (λ x xs. x ∷ xs)
      (store_bytes-apart vs next b (store b v m) (λ i small same. omega arith) (omega arith)
        ∙ ap (λ c. if c then v else m b) (==_refl b))
      (load-store_bytes vs next (store b v m) (omega arith) (omega arith))

pub length-taken : (n : ℕ) (xs : List ℕ) → n ≤ length xs → length (taken n xs) ≡ n
unfolding taken
length-taken zero xs h = refl
length-taken (suc n) [] h = omega arith
length-taken (suc n) (x ∷ xs) h = omega (arith, length-taken n xs)
