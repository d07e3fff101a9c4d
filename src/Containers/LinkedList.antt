-- ===== src/Containers/LinkedList.antt =====
-- os_kernel/src/ecs_list.h: the doubly linked list, on a heap of nodes. The null pointer is 0, a node is
-- freed where the heap has none at its address, and the address that `new` returned is an argument.
pub mod Linked
pub mod Iterators
pub mod Ends
pub mod Pops
pub mod Runs
pub mod Erase
pub mod Insert
use flitos.Base.{
  ℕ, zero, suc, ◌+◌, ◌-◌, ◌%◌, ◌^◌, Bool, true, false, ◌&&◌, ◌||◌, ltb, ◌==◌, not, if◌then◌else◌,
  Option, none, some, Outcome, ok, fault, hang, ◌>>=◌,
}

pub record Node {ℓ} (A : Type ℓ) : Type ℓ where
  pub val : A
  pub prev : ℕ
  pub next : ℕ

abbrev pub Heap {ℓ} : Type ℓ → Type ℓ
Heap A = ℕ → Option (Node A)

abbrev pub put {ℓ} : {A : Type ℓ} → ℕ → Option (Node A) → Heap A → Heap A
put a n h = λ b. if b == a then n else h b

abbrev pub deref {ℓ} : {A : Type ℓ} → Option (Node A) → Outcome (Node A)
deref none = fault
deref (some n) = ok n

-- `p->prev = v` and `p->next = v`
unfoldable pub set_prev {ℓ} : {A : Type ℓ} → ℕ → ℕ → Heap A → Outcome (Heap A)
set_prev p v h = deref (h p) >>= λ n. ok (put p (some (record n { prev = v })) h)

unfoldable pub set_next {ℓ} : {A : Type ℓ} → ℕ → ℕ → Heap A → Outcome (Heap A)
set_next p v h = deref (h p) >>= λ n. ok (put p (some (record n { next = v })) h)

-- `delete p`
unfoldable pub delete {ℓ} : {A : Type ℓ} → ℕ → Heap A → Outcome (Heap A)
delete p h = let freed = deref (h p) >>= λ n. ok (put p none h) in if p == 0 then ok h else freed

pub record LinkedList : Type 0 where
  pub size : ℕ
  pub begin : ℕ
  pub rbegin : ℕ

-- `new Node<T>(val)`
abbrev pub new_node {ℓ} : {A : Type ℓ} → ℕ → A → Heap A → Heap A
new_node a v h = put a (some (record { val = v; prev = 0; next = 0 })) h

unfoldable pub push_back {ℓ} :
    {A : Type ℓ} → ℕ → A → Heap A → LinkedList → Outcome (Heap A × LinkedList)
push_back a v h l =
    let linked = do
      h₁ ← set_next l.rbegin a (new_node a v h)
      r ← deref (h₁ l.rbegin)
      h₂ ← set_prev r.next l.rbegin h₁
      r' ← deref (h₂ l.rbegin)
      ok (h₂, record l { size = (l.size + 1) % 2 ^ 32; rbegin = r'.next })
    in if l.size == 0
      then ok (new_node a v h, record { size = 1; begin = a; rbegin = a })
      else linked

unfoldable pub push_front {ℓ} :
    {A : Type ℓ} → ℕ → A → Heap A → LinkedList → Outcome (Heap A × LinkedList)
push_front a v h l =
    let linked = do
      h₁ ← set_prev l.begin a (new_node a v h)
      b ← deref (h₁ l.begin)
      h₂ ← set_next b.prev l.begin h₁
      b' ← deref (h₂ l.begin)
      ok (h₂, record l { size = (l.size + 1) % 2 ^ 32; begin = b'.prev })
    in if l.size == 0
      then ok (new_node a v h, record { size = 1; begin = a; rbegin = a })
      else linked

-- `size_ == 1`: the only node goes.
abbrev pub pop_only {ℓ} : {A : Type ℓ} → Heap A → LinkedList → Outcome (Heap A × LinkedList)
pop_only h l = delete l.begin h >>= λ h'. ok (h', record { size = 0; begin = 0; rbegin = 0 })

unfoldable pub pop_back {ℓ} : {A : Type ℓ} → Heap A → LinkedList → Outcome (Heap A × LinkedList)
pop_back h l =
    let unlinked = do
      r ← deref (h l.rbegin)
      n ← deref (h r.prev)
      h₁ ← delete n.next h
      h₂ ← set_next r.prev 0 h₁
      ok (h₂, record l { size = l.size - 1; rbegin = r.prev })
    in if l.size == 0 then ok (h, l) else (if l.size == 1 then pop_only h l else unlinked)

unfoldable pub pop_front {ℓ} : {A : Type ℓ} → Heap A → LinkedList → Outcome (Heap A × LinkedList)
pop_front h l =
    let unlinked = do
      b ← deref (h l.begin)
      n ← deref (h b.next)
      h₁ ← delete n.prev h
      h₂ ← set_prev b.next 0 h₁
      ok (h₂, record l { size = l.size - 1; begin = b.next })
    in if l.size == 0 then ok (h, l) else (if l.size == 1 then pop_only h l else unlinked)

-- `clear`: as many rounds as there are elements are enough.
unfoldable pub clear {ℓ} : {A : Type ℓ} → ℕ → Heap A → LinkedList → Outcome (Heap A × LinkedList)
clear zero h l = if ltb 0 l.size then hang else ok (h, l)
clear (suc f) h l =
    let rest = pop_back h l >>= λ r. clear f r.0 r.1 in if ltb 0 l.size then rest else ok (h, l)

unfoldable pub front {ℓ} : {A : Type ℓ} → Heap A → LinkedList → Outcome A
front h l = deref (h l.begin) >>= λ n. ok n.val

unfoldable pub back {ℓ} : {A : Type ℓ} → Heap A → LinkedList → Outcome A
back h l = deref (h l.rbegin) >>= λ n. ok n.val

-- `Iterator_`: `p_` and `reach_end_`
pub record Iterator : Type 0 where
  pub p : ℕ
  pub reach_end : Bool

unfoldable pub same : Iterator → Iterator → Bool
same i j =
    (i.p == 0 && j.p == 0) || (i.p == j.p && (if i.reach_end then j.reach_end else not j.reach_end))

unfoldable pub begin_of : LinkedList → Iterator
begin_of l = record { p = l.begin; reach_end = false }

unfoldable pub end_of : LinkedList → Iterator
end_of l = record { p = l.rbegin; reach_end = true }

-- `it++` and `it--`, which goes on to the next node as well
unfoldable pub increment {ℓ} : {A : Type ℓ} → Heap A → Iterator → Outcome Iterator
increment h i =
    let at_node = deref (h i.p) >>= λ n.
    ok (if n.next == 0 then record i { reach_end = true } else record i { p = n.next }) in
    if i.p == 0 || i.reach_end then ok i else at_node

unfoldable pub decrement {ℓ} : {A : Type ℓ} → Heap A → Iterator → Outcome Iterator
decrement h i =
    let at_node = deref (h i.p) >>= λ n. ok (if n.prev == 0 then i else record i { p = n.next }) in
    if i.p == 0
    then ok i
    else (if i.reach_end then ok (record i { reach_end = false }) else at_node)

-- `if(p) p->next = v;` and its like
abbrev when_there {ℓ} : {A : Type ℓ} → ℕ → Outcome (Heap A) → Heap A → Outcome (Heap A)
when_there p m h = if p == 0 then ok h else m

-- `erase`: neither the size nor the ends of the list are set.
unfoldable pub erase {ℓ} :
    {A : Type ℓ} → Iterator → Heap A → LinkedList → Outcome (Heap A × LinkedList × Iterator)
erase i h l = do
  ret ← increment h i
  n ← deref (h i.p)
  h₁ ← when_there n.prev (set_next n.prev n.next h) h
  n' ← deref (h₁ i.p)
  h₂ ← when_there n'.next (set_prev n'.next n'.prev h₁) h₁
  h₃ ← delete i.p h₂
  ok (h₃, l, ret)

unfoldable pub insert {ℓ} :
    {A : Type ℓ} → ℕ → Iterator → A → Heap A → LinkedList → Outcome (Heap A × LinkedList × Iterator)
insert a i v h l =
    let at_begin = push_front a v h l >>= λ r. ok (r.0, r.1, begin_of r.1) in
    let at_end =
      push_back a v h l >>= λ r. ok (r.0, r.1, record (begin_of r.1) { p = r.1.rbegin }) in
    let between = do
      n ← deref (h i.p)
      h₁ ← set_next n.prev a (new_node a v h)
      h₂ ← set_prev a n.prev h₁
      h₃ ← set_prev i.p a h₂
      h₄ ← set_next a i.p h₃
      ok (h₄, record l { size = (l.size + 1) % 2 ^ 32 }, record { p = a; reach_end = true })
    in if same i (begin_of l) then at_begin else (if same i (end_of l) then at_end else between)
