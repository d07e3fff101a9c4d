-- ===== src/Firmware/Start.antt =====
-- `init` of riscv-firmware/src/startup.c, before `main`: the initial values of the data and the cleared
-- bss. The places of the sections come from the linker.
use flitos.Base.{
  ℕ, zero, suc, ◌+◌, ◌-◌, ◌≡◌, refl, ap, ◌∙◌, arith, Bool, true, false, ◌&&◌, ltb, leb, lt→ltb,
  le→ltb, if◌then◌else◌, ◌⊎◌, inl, inr, Outcome, ok, hang, ◌>>=◌, Returns, returns, Returns-bind,
  Returns-mono, ◌==◌, ==→eq, ◌≤◌, Bool-cases,
}
use flitos.Firmware.Memory.{Bytes, store}
use flitos.Firmware.Memory.Copies.{Copied, round-Copied}

pub record Sections : Type 0 where
  pub erodata : ℕ
  pub data_start : ℕ
  pub edata : ℕ
  pub sdata : ℕ
  pub esdata : ℕ
  pub bss : ℕ
  pub ebss : ℕ

-- `while (Base < End) *Base++ = *Source++;`
unfoldable pub copy_data : ℕ → ℕ → ℕ → ℕ → Bytes → Outcome Bytes
copy_data zero base source end m = if ltb base end then hang else ok m
copy_data (suc f) base source end m =
    let rest = copy_data f (base + 1) (source + 1) end (store base (m source) m) in
    if ltb base end then rest else ok m

-- `while (Base < End) *Base++ = 0;`
unfoldable pub clear_bss : ℕ → ℕ → ℕ → Bytes → Outcome Bytes
clear_bss zero base end m = if ltb base end then hang else ok m
clear_bss (suc f) base end m =
    let rest = clear_bss f (base + 1) end (store base 0 m) in if ltb base end then rest else ok m

-- What `init` leaves: the memory, the interrupt sources, the global enable and the first compare value.
pub record Started : Type 0 where
  pub memory : Bytes
  pub sources : ℕ
  pub enabled : Bool
  pub time_compare : ℕ

abbrev pub data_begin : Sections → ℕ
data_begin s = if ltb s.data_start s.sdata then s.data_start else s.sdata

abbrev pub data_end : Sections → ℕ
data_end s = if ltb s.esdata s.edata then s.edata else s.esdata

unfoldable pub init : Sections → Bytes → Outcome Started
init s m = do
  m₁ ← copy_data (data_end s - data_begin s) (data_begin s) s.erodata (data_end s) m
  m₂ ← clear_bss (s.ebss - s.bss) s.bss s.ebss m₁
  ok (record { memory = m₂; sources = 0x888; enabled = true; time_compare = 1 })

copy_data-Copied :
    (f base source end : ℕ) (m : Bytes)
    → end ≤ base + f
    → (source + f ≤ base) ⊎ (base + f ≤ source)
    → base + f ≤ end
    → Returns (λ n. (a : ℕ) → Copied base source f m n a) (copy_data f base source end m)
unfolding copy_data
copy_data-Copied zero base source end m enough apart exact =
    rw (le→ltb base end (omega arith)) (returns λ a. ground arith)
copy_data-Copied (suc f) base source end m enough apart exact = rw (lt→ltb base end (omega arith)) (
    Returns-mono
      (copy_data-Copied f (base + 1) (source + 1) end (store base (m source) m) (omega arith)
        (ground arith) (omega arith))
      λ n later a. round-Copied f base source m a apart n (later a))

-- `len` bytes from `dst` are zero.
abbrev pub Cleared : ℕ → ℕ → Bytes → Bytes → ℕ → Type 0
Cleared dst len m n a = n a ≡ (if leb dst a && ltb a (dst + len) then 0 else m a)

round-Cleared :
    (k d : ℕ) (m : Bytes) (a : ℕ) (n : Bytes)
    → Cleared (d + 1) k (store d 0 m) n a
    → Cleared d (suc k) m n a
round-Cleared k d m a n later = elim (Bool-cases (leb (d + 1) a && ltb a (d + 1 + k))) [
  | inl inside ↦
      let in_range : (leb d a && ltb a (d + suc k)) ≡ true = ground arith in
      later ∙ rw (inside, in_range) refl
  | inr outside ↦ elim (Bool-cases (a == d)) [
    | inl first ↦
        let e = ==→eq a d first in
        let in_range : (leb d a && ltb a (d + suc k)) ≡ true = ground arith in
        later ∙ rw (outside, in_range, first) refl
    | inr past ↦
        let out_of_range : (leb d a && ltb a (d + suc k)) ≡ false = ground arith in
        later ∙ rw (outside, out_of_range, past) refl
  ]
]

clear_bss-Cleared :
    (f base end : ℕ) (m : Bytes)
    → (f ≡ end - base)
    → Returns (λ n. (a : ℕ) → Cleared base f m n a) (clear_bss f base end m)
unfolding clear_bss
clear_bss-Cleared zero base end m exact =
    rw (le→ltb base end (omega arith)) (returns λ a. ground arith)
clear_bss-Cleared (suc f) base end m exact = rw (lt→ltb base end (omega arith)) (
    Returns-mono (clear_bss-Cleared f (base + 1) end (store base 0 m) (omega arith))
      λ n later a. round-Cleared f base m a n (later a))

spans :
    (d e s : ℕ)
    → d ≤ e
    → (s + (e - d) ≤ d) ⊎ (e ≤ s)
    → (e ≤ d + (e - d)) × ((s + (e - d) ≤ d) ⊎ (d + (e - d) ≤ s)) × (d + (e - d) ≤ e)
spans d e s ordered apart = (omega arith, ground arith, omega arith)

-- Where the initial values do not overlap the data that they are for, `init` returns: the data has its
-- initial values and the bss is zero, which counts where the two overlap; no other byte changes.
pub init-Loaded :
    (s : Sections) (m : Bytes)
    → data_begin s ≤ data_end s
    → (s.erodata + (data_end s - data_begin s) ≤ data_begin s) ⊎ (data_end s ≤ s.erodata)
    → Returns
        (λ (r : Started).
          (a : ℕ)
          → r.memory a ≡ (
              if leb s.bss a && ltb a (s.bss + (s.ebss - s.bss))
              then 0
              else (if leb (data_begin s) a && ltb a (data_begin s + (data_end s - data_begin s))
                  then m (s.erodata + (a - data_begin s))
                  else m a)))
        (init s m)
unfolding init
init-Loaded s m ordered apart =
    let (reach, clear, exact) = spans (data_begin s) (data_end s) s.erodata ordered apart in
    Returns-bind
      (copy_data-Copied (data_end s - data_begin s) (data_begin s) s.erodata (data_end s) m reach
        clear exact)
      λ m₁ loaded.
        Returns-bind (clear_bss-Cleared (s.ebss - s.bss) s.bss s.ebss m₁ refl) λ m₂ cleared.
          returns λ a.
            cleared a
            ∙ ap (λ x. if leb s.bss a && ltb a (s.bss + (s.ebss - s.bss)) then 0 else x) (loaded a)
