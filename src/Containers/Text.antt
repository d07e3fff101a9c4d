-- ===== src/Containers/Text.antt =====
-- os_kernel/src/ecs_string.h: a string is a vector of characters that ends with a zero. The two strings
-- of an operation are different objects.
pub mod Appended
use flitos.Base.{
  ℕ, zero, suc, ◌+◌, ◌-◌, ◌%◌, ◌^◌, ◌==◌, if◌then◌else◌, none, some, Outcome, ok, fault, hang,
  ◌>>=◌,
}
use flitos.Containers.Vector.{
  Vector, scalar, empty_vector, resize, at, assign, push_back, copy_assign, swap,
}

unfoldable pub text_size : Vector ℕ → ℕ
text_size s = (s.size + 2 ^ 32 - 1) % 2 ^ 32

-- `basic_string()`
unfoldable pub empty_text : Outcome (Vector ℕ)
empty_text = resize scalar 1 empty_vector >>= assign 0 (some 0)

-- The copy constructor, and the move constructor: the new string and what is left of the other
unfoldable pub copied_text : Vector ℕ → Outcome (Vector ℕ)
copied_text rhs = copy_assign scalar rhs empty_vector

unfoldable pub moved_text : Vector ℕ → Outcome (Vector ℕ × Vector ℕ)
moved_text rhs =
    let both = swap empty_vector rhs in push_back 0 both.1 >>= λ left. ok (both.0, left)

-- The move assignment: both strings after it
unfoldable pub move_assign : Vector ℕ → Vector ℕ → Vector ℕ × Vector ℕ
move_assign s rhs = swap s rhs

-- `basic_string(const char* c_str)`, for `f` characters from `idx`; it goes on to the first zero.
unfoldable pub text_of_loop : ℕ → ℕ → (ℕ → ℕ) → Vector ℕ → Outcome (Vector ℕ)
text_of_loop zero idx c s = hang
text_of_loop (suc f) idx c s =
    let rest =
      push_back (c idx) s >>= λ w. if c idx == 0 then ok w else text_of_loop f (idx + 1) c w in
    rest

unfoldable pub text_of : ℕ → (ℕ → ℕ) → Outcome (Vector ℕ)
text_of f c = text_of_loop f 0 c empty_vector

-- `for(i = 0; i < rhs.size(); i++) at(i + old_size) = rhs.at(i);`, for `k` rounds from `i`
unfoldable pub append_loop : ℕ → ℕ → ℕ → Vector ℕ → Vector ℕ → Outcome (Vector ℕ)
append_loop zero i old rhs s = ok s
append_loop (suc k) i old rhs s = do
  c ← at i rhs
  w ← assign (i + old) c s
  append_loop k (i + 1) old rhs w

-- `operator += `
unfoldable pub append : Vector ℕ → Vector ℕ → Outcome (Vector ℕ)
append rhs s = do
  w ← resize scalar ((s.size + text_size rhs + 1) % 2 ^ 32) s
  u ← append_loop (text_size rhs) 0 s.size rhs w
  assign (text_size u) (some 0) u

-- `operator +`
unfoldable pub sum : Vector ℕ → Vector ℕ → Outcome (Vector ℕ)
sum s rhs = empty_text >>= append s >>= append rhs

-- `operator = (const basic_string& rhs)`: its own memory is not made larger.
unfoldable pub assign_loop : ℕ → ℕ → Vector ℕ → Vector ℕ → Outcome (Vector ℕ)
assign_loop zero i rhs s = ok s
assign_loop (suc k) i rhs s = do c ← at i rhs; w ← assign i c s; assign_loop k (i + 1) rhs w

unfoldable pub assign_text : Vector ℕ → Vector ℕ → Outcome (Vector ℕ)
assign_text rhs s = assign_loop rhs.size 0 rhs s
