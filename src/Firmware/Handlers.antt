-- ===== src/Firmware/Handlers.antt =====
-- The list of timer handlers: riscv-firmware/src/SList.c and timer.c. The head of the list holds no
-- handler; what `malloc` left in its `data` is an argument of `init_list`.
use flitos.Base.{
  ℕ, ◌+◌, ◌%◌, ◌^◌, ◌≡◌, ◌≢◌, refl, ap, arith, ◌==◌, Bool, false, ◌||◌, ne→==, if◌then◌else◌, List,
  [], ◌∷◌, ◌++◌, length, Outcome, ok, fault, ◌>>=◌,
}

-- `node`: not made yet, or the head's `data` and the handlers behind it, or the memory of a head that
-- was freed.
pub data SList : Type 0 where
  null dangling : SList
  nodes : ℕ → List ℕ → SList

-- The list of handlers has not been freed.
abbrev pub Live : SList → Type 0
Live dangling = ⊥
Live null = Unit {0}
Live (nodes g ts) = Unit {0}

unfoldable pub init_list : ℕ → SList
init_list garbage = nodes garbage []

-- `insertNode`: to the end of the list. Through a null or a freed pointer it is a fault.
unfoldable pub insert_node : SList → ℕ → Outcome SList
insert_node null t = fault
insert_node dangling t = fault
insert_node (nodes g ts) t = ok (nodes g (ts ++ (t ∷ [])))

-- The loop of `deleteNode` from a node behind the head: it stops at `t` or at the last node, and the
-- node where it stops goes.
pub delete_behind : ℕ → List ℕ → List ℕ
delete_behind t [] = []
delete_behind t (u ∷ []) = []
delete_behind t (u ∷ v ∷ us) =
    let rest = delete_behind t (v ∷ us) in if u == t then v ∷ us else u ∷ rest

-- `deleteNode`: where the loop stops at the head, the head is freed.
pub delete_node : SList → ℕ → Outcome SList
delete_node null t = ok null
delete_node dangling t = fault
delete_node (nodes g []) t = ok dangling
delete_node (nodes g (u ∷ us)) t =
    ok (if g == t then dangling else nodes g (delete_behind t (u ∷ us)))

-- `register_handler`, with what a fresh head would hold
unfoldable pub register_handler : ℕ → SList → ℕ → Outcome SList
register_handler garbage null t = insert_node (init_list garbage) t
register_handler garbage dangling t = insert_node dangling t
register_handler garbage (nodes g ts) t = insert_node (nodes g ts) t

pub deregister_handler : SList → ℕ → Outcome SList
deregister_handler l t = delete_node l t

-- `handle_timer`: the handlers that it calls, each with the value of `call_back_cnt++`.
unfoldable pub handler_calls : ℕ → List ℕ → List (ℕ × ℕ)
handler_calls cnt [] = []
handler_calls cnt (t ∷ ts) = (t, cnt) ∷ handler_calls ((cnt + 1) % 2 ^ 32) ts

unfoldable pub handle_timer : ℕ → SList → Outcome (List (ℕ × ℕ))
handle_timer cnt null = fault
handle_timer cnt dangling = fault
handle_timer cnt (nodes g ts) = ok (handler_calls cnt ts)

-- `size_linkedList`
pub size_linked_list : SList → Outcome ℕ
size_linked_list null = fault
size_linked_list dangling = fault
size_linked_list (nodes g ts) = ok (length ts)

-- Whether `t` is among the handlers.
unfoldable pub registered : ℕ → List ℕ → Bool
registered t [] = false
registered t (u ∷ us) = (u == t) || registered t us

delete_behind-append :
    (t u : ℕ) (ts : List ℕ) → registered t ts ≡ false → delete_behind t (ts ++ (t ∷ [])) ≡ ts
unfolding delete_behind registered
delete_behind-append t u [] absent = refl
delete_behind-append t u (v ∷ []) absent = ground arith
delete_behind-append t u (v ∷ w ∷ ws) absent = ground (arith, delete_behind-append t u (w ∷ ws))

-- A handler that is not in the list yet, and not what the head's memory holds by chance, is gone again
-- after it was registered and deregistered, and the others are as before.
pub deregister-register :
    (garbage g t : ℕ) (ts : List ℕ)
    → registered t ts ≡ false
    → g ≢ t
    → (register_handler garbage (nodes g ts) t >>= λ l. deregister_handler l t) ≡ ok (nodes g ts)
unfolding register_handler insert_node deregister_handler delete_node
deregister-register garbage g t ts absent ne = by ts (delete_behind-append t g ts absent)
  where
    by :
        (us : List ℕ)
        → delete_behind t (us ++ (t ∷ [])) ≡ us
        → delete_node (nodes g (us ++ (t ∷ []))) t ≡ ok (nodes g us)
    by [] e = rw (ne→== g t ne) (ap (λ w. ok (nodes g w)) e)
    by (u ∷ us) e = rw (ne→== g t ne) (ap (λ w. ok (nodes g w)) e)

unfoldable pub drop_last : List ℕ → List ℕ
drop_last [] = []
drop_last (u ∷ []) = []
drop_last (u ∷ v ∷ us) = u ∷ drop_last (v ∷ us)

delete_behind-absent :
    (t : ℕ) (ts : List ℕ) → registered t ts ≡ false → delete_behind t ts ≡ drop_last ts
unfolding delete_behind drop_last registered
delete_behind-absent t [] absent = refl
delete_behind-absent t (u ∷ []) absent = refl
delete_behind-absent t (u ∷ v ∷ us) absent = ground (arith, delete_behind-absent t (v ∷ us))

-- Deregistering a handler that is not in a list with handlers takes the last handler out, whichever
-- it is, if the head's memory does not hold the handler by chance.
pub deregister-absent :
    (g t u : ℕ) (us : List ℕ)
    → registered t (u ∷ us) ≡ false
    → g ≢ t
    → deregister_handler (nodes g (u ∷ us)) t ≡ ok (nodes g (drop_last (u ∷ us)))
unfolding deregister_handler delete_node
deregister-absent g t u us absent ne =
    rw (ne→== g t ne) (ap (λ w. ok (nodes g w)) (delete_behind-absent t (u ∷ us) absent))

-- Deregistering from a list with no handler frees its head: every later call of the timer is
-- undefined.
pub deregister-empty :
    (cnt g t : ℕ) → (deregister_handler (nodes g []) t >>= handle_timer cnt) ≡ fault
unfolding deregister_handler delete_node handle_timer
deregister-empty cnt g t = refl
