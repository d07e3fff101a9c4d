-- ===== src/Firmware/Ticks.antt =====
-- The timer part of an interrupt: `handle_time_interrupt` of riscv-firmware/src/timer.c.
use flitos.Base.{
  ℕ, zero, suc, ◌+◌, ◌%◌, ◌^◌, ◌<◌, ◌≡◌, refl, sym, ap, ◌∙◌, arith, ◌==◌, if◌then◌else◌, List, [],
  ◌∷◌, ◌++◌, append_assoc, append-nil, get_or, length, Outcome, ok, ◌>>=◌, Returns, returns,
  Bool-cases, inl, inr,
}
use flitos.Firmware.Handlers.{
  Live, SList, null, dangling, nodes, init_list, handler_calls, handle_timer, insert_node,
  register_handler,
}

-- `if (node == NULL) node = initList();`
unfoldable pub ensure_list : ℕ → SList → SList
ensure_list garbage null = init_list garbage
ensure_list garbage dangling = dangling
ensure_list garbage (nodes g ts) = nodes g ts

-- What it returns, the calls of handlers that it makes, and the list.
unfoldable pub handle_time_interrupt : ℕ → ℕ → ℕ → SList → Outcome (ℕ × List (ℕ × ℕ) × SList)
handle_time_interrupt garbage mcause cnt l =
    if mcause == 2 ^ 31 + 7
    then handle_timer cnt (ensure_list garbage l)
      >>= (λ calls. ok (1, calls, ensure_list garbage l))
    else ok (0, [], l)

-- With a list that was not freed the handlers are called, and the list is still there; the result is
-- whether the timer was the cause.
pub handle_time_interrupt-Live :
    (garbage mcause cnt : ℕ) (l : SList)
    → Live l
    → Returns
        (λ (r : ℕ × List (ℕ × ℕ) × SList).
          Live r.2 × (r.0 ≡ (if mcause == 2 ^ 31 + 7 then 1 else 0)))
        (handle_time_interrupt garbage mcause cnt l)
unfolding handle_time_interrupt handle_timer ensure_list init_list
handle_time_interrupt-Live garbage mcause cnt l live = elim (Bool-cases (mcause == 2 ^ 31 + 7)) [
  | inl timer ↦ rw timer (by l live)
  | inr other ↦ rw other (returns (live, refl))
]
  where
    by :
        (l : SList)
        → Live l
        → Returns
            (λ (r : ℕ × List (ℕ × ℕ) × SList). Live r.2 × (r.0 ≡ 1))
            (handle_timer cnt (ensure_list garbage l)
              >>= (λ calls. ok (1, calls, ensure_list garbage l)))
    by null live = returns (tt, refl)
    by (nodes g ts) live = returns (tt, refl)
    by dangling live = absurd live

calls-nth :
    (cnt : ℕ) (ts : List ℕ) (i : ℕ)
    → i < length ts
    → cnt < 2 ^ 32
    → get_or (handler_calls cnt ts) i (0, 0) ≡ (get_or ts i 0, (cnt + i) % 2 ^ 32)
unfolding handler_calls
calls-nth cnt [] i inside small = absurd (omega arith)
calls-nth cnt (t ∷ ts) zero inside small = ap (λ n. (t, n)) (omega arith)
calls-nth cnt (t ∷ ts) (suc i) inside small =
    calls-nth ((cnt + 1) % 2 ^ 32) ts i (omega arith) (omega arith)
    ∙ ap (λ n. (get_or ts i 0, n)) (omega arith)

length-calls : (cnt : ℕ) (ts : List ℕ) → length (handler_calls cnt ts) ≡ length ts
unfolding handler_calls
length-calls cnt [] = refl
length-calls cnt (t ∷ ts) = ap suc (length-calls ((cnt + 1) % 2 ^ 32) ts)

-- `register_handler` of one handler after the other
unfoldable pub register_all : ℕ → List ℕ → SList → Outcome SList
register_all garbage [] l = ok l
register_all garbage (t ∷ ts) l = register_handler garbage l t >>= register_all garbage ts

register_all-nodes :
    (garbage g : ℕ) (ts us : List ℕ)
    → register_all garbage ts (nodes g us) ≡ ok (nodes g (us ++ ts))
unfolding register_all register_handler insert_node
register_all-nodes garbage g [] us = ap (λ x. ok (nodes g x)) (sym (append-nil us))
register_all-nodes garbage g (t ∷ ts) us =
    register_all-nodes garbage g ts (us ++ (t ∷ []))
    ∙ ap (λ x. ok (nodes g x)) (append_assoc us (t ∷ []) ts)

register_all-null :
    (garbage : ℕ) (ts : List ℕ)
    → 0 < length ts
    → register_all garbage ts null ≡ ok (nodes garbage ts)
unfolding register_all register_handler insert_node init_list
register_all-null garbage [] some_handler = absurd (omega arith)
register_all-null garbage (t ∷ ts) some_handler = register_all-nodes garbage garbage ts (t ∷ [])

-- Where handlers were registered one after the other from the start, a timer interrupt makes as many
-- calls as there are handlers, the `i`th call is of the handler that was registered as number `i`, with
-- the count plus `i` on 32 bits, and the list stays as it is.
pub handle_time_interrupt-calls :
    (garbage cnt : ℕ) (ts : List ℕ) (i : ℕ)
    → cnt < 2 ^ 32
    → i < length ts
    → (calls : List (ℕ × ℕ)) × ((register_all garbage ts null
          >>= handle_time_interrupt garbage (2 ^ 31 + 7) cnt)
        ≡ ok (1, calls, nodes garbage ts))
      × (length calls ≡ length ts)
      × (get_or calls i (0, 0) ≡ (get_or ts i 0, (cnt + i) % 2 ^ 32))
unfolding handle_time_interrupt handle_timer ensure_list
handle_time_interrupt-calls garbage cnt ts i small inside = (
  handler_calls cnt ts,
  ap (λ o. o >>= handle_time_interrupt garbage (2 ^ 31 + 7) cnt)
      (register_all-null garbage ts (omega arith)),
  length-calls cnt ts,
  calls-nth cnt ts i inside small,
)
