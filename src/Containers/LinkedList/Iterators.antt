-- ===== src/Containers/LinkedList/Iterators.antt =====
-- When two iterators of the list are the same.
use flitos.Base.{ℕ, ◌≡◌, ◌≢◌, refl, true, false, ◌==◌, ne→==, ==_refl, inl, inr, Bool-cases}
use flitos.Containers.LinkedList.{LinkedList, begin_of, end_of, same}

-- An iterator at a node is not the end.
pub same-before_end :
    (a e : ℕ)
    → a ≢ 0
    → same (record { p = a; reach_end = false }) (record { p = e; reach_end = true }) ≡ false
unfolding same
same-before_end a e there = elim (Bool-cases (a == e)) [
  | inl last ↦ rw (ne→== a 0 there, last) refl
  | inr other ↦ rw (ne→== a 0 there, other) refl
]

pub same-here :
    (a : ℕ)
    → same (record { p = a; reach_end = false }) (record { p = a; reach_end = false }) ≡ true
unfolding same
same-here a = elim (Bool-cases (a == 0)) [
  | inl null ↦ rw null refl
  | inr there ↦ rw (there, ==_refl a) refl
]

pub same-apart :
    (a b : ℕ)
    → a ≢ 0
    → a ≢ b
    → same (record { p = a; reach_end = false }) (record { p = b; reach_end = false }) ≡ false
unfolding same
same-apart a b there other = rw (ne→== a 0 there, ne→== a b other) refl

pub both_null : (l : LinkedList) → l.begin ≡ 0 → l.rbegin ≡ 0 → same (end_of l) (begin_of l) ≡ true
unfolding same end_of begin_of
both_null l begins ends = rw (begins, ends) refl

pub same-end-begin : (l : LinkedList) → l.rbegin ≢ 0 → same (end_of l) (begin_of l) ≡ false
unfolding same end_of begin_of
same-end-begin l there = elim (Bool-cases (l.rbegin == l.begin)) [
  | inl only ↦ rw (ne→== l.rbegin 0 there, only) refl
  | inr other ↦ rw (ne→== l.rbegin 0 there, other) refl
]

-- The end is the end.
pub same-end :
    (a : ℕ) → same (record { p = a; reach_end = true }) (record { p = a; reach_end = true }) ≡ true
unfolding same
same-end a = elim (Bool-cases (a == 0)) [
  | inl null ↦ rw null refl
  | inr there ↦ rw (there, ==_refl a) refl
]
