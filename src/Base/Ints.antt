-- ===== src/Base/Ints.antt =====
-- Signed integers over the native numbers, under the library's names.
use Prim.Native.Nat.{ℕ, suc, ◌+◌, ◌-◌, ◌%◌, ◌^◌, ◌≤◌, ◌<◌}
use mathlib.Core.Path.{◌≡◌}
use mathlib.Core.Bool.{Bool, true, false}
use native.Mathlib.Omega.{arith}
use flitos.Base.Tests.{ltb, leb, if◌then◌else◌}

-- `negsuc n` is -(n + 1).
pub data ℤ : Type 0 where
  pos : ℕ → ℤ
  negsuc : ℕ → ℤ

abbrev pub pos_part : ℤ → ℕ
pos_part (pos n) = n
pos_part (negsuc n) = 0

abbrev pub neg_part : ℤ → ℕ
neg_part (pos n) = 0
neg_part (negsuc n) = suc n

-- a - b, as an integer
abbrev pub sub_ℕ : ℕ → ℕ → ℤ
sub_ℕ a b = if leb b a then pos (a - b) else negsuc (b - a - 1)

infixl 65 ◌+ℤ◌ ◌-ℤ◌
infix 50 ◌≤ℤ◌
unfoldable pub ◌+ℤ◌ : ℤ → ℤ → ℤ
a +ℤ b = sub_ℕ (pos_part a + pos_part b) (neg_part a + neg_part b)

unfoldable pub ◌-ℤ◌ : ℤ → ℤ → ℤ
a -ℤ b = sub_ℕ (pos_part a + neg_part b) (neg_part a + pos_part b)

abbrev pub ◌≤ℤ◌ : ℤ → ℤ → Type 0
a ≤ℤ b = pos_part a + neg_part b ≤ pos_part b + neg_part a

abbrev pub ltb_ℤ : ℤ → ℤ → Bool
ltb_ℤ a b = ltb (pos_part a + neg_part b) (pos_part b + neg_part a)

abbrev pub leb_ℤ : ℤ → ℤ → Bool
leb_ℤ a b = leb (pos_part a + neg_part b) (pos_part b + neg_part a)

-- The pattern of an integer on 32 bits, and the integer of a pattern.
abbrev pub unsigned32 : ℤ → ℕ
unsigned32 a = (pos_part a + (2 ^ 32 - neg_part a % 2 ^ 32)) % 2 ^ 32

abbrev pub signed32 : ℕ → ℤ
signed32 w = if ltb w (2 ^ 31) then pos w else negsuc (2 ^ 32 - w - 1)

-- A sum of two `int`s, which keeps 32 bits of the sum.
unfoldable pub add_int : ℤ → ℤ → ℤ
add_int a b = signed32 (unsigned32 (a +ℤ b))

-- An integer that an `int` holds.
abbrev pub FitsInt : ℤ → Type 0
FitsInt a = (pos_part a < 2 ^ 31) × (neg_part a ≤ 2 ^ 31)

signed32-unsigned32 : (a : ℤ) → FitsInt a → signed32 (unsigned32 a) ≡ a
signed32-unsigned32 (pos n) (low, high) = ground arith
signed32-unsigned32 (negsuc n) (low, high) = ground arith

pub add_int-exact : (a b : ℤ) → FitsInt (a +ℤ b) → add_int a b ≡ a +ℤ b
unfolding add_int
add_int-exact a b fit = signed32-unsigned32 (a +ℤ b) fit

pub leb_ℤ→≤ : (a b : ℤ) → leb_ℤ a b ≡ true → a ≤ℤ b
leb_ℤ→≤ a b h = ground arith

pub ≤→leb_ℤ : (a b : ℤ) → a ≤ℤ b → leb_ℤ a b ≡ true
≤→leb_ℤ a b h = ground arith

pub leb_ℤ-false : (a b : ℤ) → leb_ℤ a b ≡ false → b ≤ℤ a
leb_ℤ-false a b h = ground arith

-- What a sum and a difference are, for `omega` with the operations shut.
pub +ℤ_parts :
    (a b : ℤ)
    → pos_part (a +ℤ b) + neg_part a + neg_part b ≡ neg_part (a +ℤ b) + pos_part a + pos_part b
unfolding ◌+ℤ◌
+ℤ_parts a b = ground arith

pub -ℤ_parts :
    (a b : ℤ)
    → pos_part (a -ℤ b) + neg_part a + pos_part b ≡ neg_part (a -ℤ b) + pos_part a + neg_part b
unfolding ◌-ℤ◌
-ℤ_parts a b = ground arith

pub eq_of_parts : (a b : ℤ) → pos_part a + neg_part b ≡ pos_part b + neg_part a → a ≡ b
eq_of_parts a b h = ground arith

pub ruleset int_laws = (arith, +ℤ_parts, -ℤ_parts, eq_of_parts)

pub sub_add : (a b c : ℕ) → (pos a -ℤ pos b) +ℤ pos c ≡ pos (a + c) -ℤ pos b
sub_add a b c =
    let whole = +ℤ_parts (pos a -ℤ pos b) (pos c) in
    let left = -ℤ_parts (pos a) (pos b) in
    let right = -ℤ_parts (pos (a + c)) (pos b) in eq_of_parts _ _ (omega arith)

-- Where a difference of naturals lies.
pub sub-le : (a b c : ℕ) → a ≤ b + c → (pos a -ℤ pos b) ≤ℤ pos c
sub-le a b c h = let diff = -ℤ_parts (pos a) (pos b) in omega arith

pub le-sub : (a b c : ℕ) → b + c ≤ a → pos c ≤ℤ (pos a -ℤ pos b)
le-sub a b c h = let diff = -ℤ_parts (pos a) (pos b) in omega arith
