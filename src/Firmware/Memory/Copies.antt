-- ===== src/Firmware/Memory/Copies.antt =====
-- What `writeTargetMem` and `writeTarget` leave in memory.
use flitos.Base.{
  ℕ, zero, suc, ◌+◌, ◌-◌, ◌/◌, ◌%◌, ◌^◌, ◌≤◌, ◌<◌, ◌≡◌, refl, ap, ◌∙◌, arith, ◌==◌, ltb, leb, ◌&&◌,
  if◌then◌else◌, Bool-cases, inl, inr, true, false, ◌⊎◌, subst₂, ◌≢◌, ne→==, ==→eq,
}
use flitos.Firmware.Memory.{
  Bytes, store, reg_addr_from_mem_handle, mem_length_check, copy_bytes, write_target_mem,
  store_word, load_word, write_target,
}

-- `len` bytes from `dst` come from those from `src`.
abbrev pub Copied : ℕ → ℕ → ℕ → Bytes → Bytes → ℕ → Type 0
Copied dst src len m n a =
    n a ≡ (if leb dst a && ltb a (dst + len) then m (src + (a - dst)) else m a)

-- One round: the byte at `d` is written, and the rest of the source is not.
pub round-Copied :
    (k d s : ℕ) (m : Bytes) (a : ℕ)
    → (s + suc k ≤ d) ⊎ (d + suc k ≤ s)
    → (n : Bytes) → Copied (d + 1) (s + 1) k (store d (m s) m) n a
    → Copied d s (suc k) m n a
round-Copied k d s m a apart n later = elim (Bool-cases (leb (d + 1) a && ltb a (d + 1 + k))) [
  | inl inside ↦
      let from : d + 1 ≤ a = ground arith in
      let to : a < d + 1 + k = ground arith in
      let other : (s + 1 + (a - (d + 1)) == d) ≡ false = ne→== _ d λ e. ground arith in
      let in_range : (leb d a && ltb a (d + suc k)) ≡ true = ground arith in
      later ∙ rw (inside, in_range, other) (ap m (omega arith))
  | inr outside ↦ elim (Bool-cases (a == d)) [
    | inl first ↦
        let e = ==→eq a d first in
        let in_range : (leb d a && ltb a (d + suc k)) ≡ true = ground arith in
        later ∙ rw (outside, in_range, first) (ap m (omega arith))
    | inr past ↦
        let out_of_range : (leb d a && ltb a (d + suc k)) ≡ false = ground arith in
        later ∙ rw (outside, out_of_range, past) refl
  ]
]

copy_bytes-Copied :
    (k i dst src : ℕ) (m : Bytes) (a : ℕ)
    → dst + i + k ≤ 2 ^ 32
    → src + i + k ≤ 2 ^ 32
    → (src + i + k ≤ dst) ⊎ (dst + i + k ≤ src)
    → Copied (dst + i) (src + i) k m (copy_bytes k i dst src m) a
unfolding copy_bytes
copy_bytes-Copied zero i dst src m a d s apart = ground arith
copy_bytes-Copied (suc k) i dst src m a d s apart =
    let plain_d : (dst + i) % 2 ^ 32 ≡ dst + i = omega arith in
    let plain_s : (src + i) % 2 ^ 32 ≡ src + i = omega arith in
    let again : (x : ℕ) → x + i + 1 ≡ x + (i + 1) = λ x. omega arith in
    round-Copied k (dst + i) (src + i) m a (ground arith) (copy_bytes (suc k) i dst src m) (
      rw (plain_d, plain_s, again dst, again src)
        (copy_bytes-Copied k (i + 1) dst src (store (dst + i) (m (src + i)) m) a (omega arith)
          (omega arith) (ground arith)))

-- A source that does not overlap the place behind the handle, both below 2^32, is copied byte by byte,
-- and nothing else changes.
pub write_target_mem-Copied :
    (handle src len : ℕ) (m : Bytes) (a : ℕ)
    → handle + 0x50000000 + len < 2 ^ 32
    → src + len < 2 ^ 32
    → (src + len ≤ handle + 0x50000000) ⊎ (handle + 0x50000000 + len ≤ src)
    → Copied (handle + 0x50000000) src len m ((write_target_mem handle src len m).1) a
unfolding write_target_mem mem_length_check reg_addr_from_mem_handle
write_target_mem-Copied handle src len m a d s apart =
    let plain : (handle + 0x50000000) % 2 ^ 32 ≡ handle + 0x50000000 = omega arith in
    rw plain (
      subst₂ (λ d s. Copied d s len m (copy_bytes len 0 (handle + 0x50000000) src m) a)
        (omega arith) (omega arith)
        (copy_bytes-Copied len 0 (handle + 0x50000000) src m a (omega arith) (omega arith)
          (ground arith)))

word_bytes :
    (b₀ b₁ b₂ b₃ v₀ v₁ v₂ v₃ : ℕ) (m : Bytes)
    → b₀ ≢ b₁
    → b₀ ≢ b₂
    → b₀ ≢ b₃
    → b₁ ≢ b₂
    → b₁ ≢ b₃
    → b₂ ≢ b₃
    → (let n : Bytes = store b₃ v₃ (store b₂ v₂ (store b₁ v₁ (store b₀ v₀ m))) in
        (n b₀ ≡ v₀) × (n b₁ ≡ v₁) × (n b₂ ≡ v₂) × (n b₃ ≡ v₃))
word_bytes b₀ b₁ b₂ b₃ v₀ v₁ v₂ v₃ m a b c d e f =
    (ground arith, ground arith, ground arith, ground arith)

-- Whatever the handle, the word that `write_target` writes is read back from the address behind it.
pub load_word-write_target :
    (handle value : ℕ) (m : Bytes)
    → value < 2 ^ 32
    → load_word (handle + 0x50000000) ((write_target handle value m).1) ≡ value
unfolding load_word write_target mem_length_check store_word reg_addr_from_mem_handle
load_word-write_target handle value m small =
    let a : ℕ = handle + 0x50000000 in
    let at₁ : (a % 2 ^ 32 + 1) % 2 ^ 32 ≡ (a + 1) % 2 ^ 32 = omega arith in
    let at₂ : (a % 2 ^ 32 + 2) % 2 ^ 32 ≡ (a + 2) % 2 ^ 32 = omega arith in
    let at₃ : (a % 2 ^ 32 + 3) % 2 ^ 32 ≡ (a + 3) % 2 ^ 32 = omega arith in
    let at₀ : a % 2 ^ 32 % 2 ^ 32 ≡ a % 2 ^ 32 = omega arith in
    let (r₀, r₁, r₂, r₃) =
      word_bytes (a % 2 ^ 32) ((a + 1) % 2 ^ 32) ((a + 2) % 2 ^ 32) ((a + 3) % 2 ^ 32)
        (value % 2 ^ 8) (value / 2 ^ 8 % 2 ^ 8) (value / 2 ^ 16 % 2 ^ 8) (value / 2 ^ 24 % 2 ^ 8) m
        (λ e. omega arith) (λ e. omega arith) (λ e. omega arith) (λ e. omega arith)
        (λ e. omega arith) (λ e. omega arith) in
    rw (at₀, at₁, at₂, at₃, r₀, r₁, r₂, r₃) (omega arith)
