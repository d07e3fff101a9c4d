-- ===== src/Containers/Deque/Fifo.antt =====
-- What a client of the deque sees, against a list: the kernel's use of its ready and waiting queues,
-- `push_back`, and `front` with `pop_front` behind a test of `empty`.
use flitos.Base.{
  ◌+◌, ◌*◌, ◌^◌, ◌≤◌, ◌<◌, ◌≡◌, refl, ap, sym, ◌∙◌, false, Option, none, some, List, [], ◌∷◌, ◌++◌,
  map, arith, ◌==◌, length, length-map, if◌then◌else◌, Outcome, ok, Returns-value, ◌>>=◌,
}
use flitos.Containers.Deque.Valid.{IsValid, cell, contents, length-tabulate, empty_deque-IsValid}
use flitos.Containers.Deque.{Deque, size, empty, push_back, pop_front, front, empty_deque}
use flitos.Containers.Deque.Refine.{push_back-contents, pop_front-contents}

pub data Op {ℓ} (A : Type ℓ) : Type ℓ where
  push : A → Op A
  pop : Op A

-- What an operation returns: the content of the front cell, if there is one.
abbrev pub Reply {ℓ} : Type ℓ → Type ℓ
Reply A = Option (Option A)

module _ {ℓ} {A : Type ℓ} where
  pub step : Op A → Deque A → Outcome (Reply A × Deque A)
  step (push x) d = do e ← push_back x d; ok (none, e)
  step pop d = if empty d then ok (none, d) else do c ← front d; e ← pop_front d; ok (some c, e)

  pub run : List (Op A) → Deque A → Outcome (List (Reply A))
  run [] d = ok []
  run (op ∷ ops) d = do (r, e) ← step op d; rs ← run ops e; ok (r ∷ rs)

  -- The same calls on a list, oldest element first.
  pub reply : Op A → List A → Reply A
  reply (push x) q = none
  reply pop [] = none
  reply pop (x ∷ q) = some (some x)

  pub after : Op A → List A → List A
  after (push x) q = q ++ (x ∷ [])
  after pop [] = []
  after pop (x ∷ q) = q

  pub run_list : List (Op A) → List A → List (Reply A)
  run_list [] q = []
  run_list (op ∷ ops) q = reply op q ∷ run_list ops (after op q)

  -- The deque holds exactly the elements `q`, each in a constructed cell.
  pub record Holds (d : Deque A) (q : List A) : Type ℓ where
    pub valid : IsValid d
    pub same : contents d ≡ map some q

  map-append-one : (q : List A) (x : A) → map some q ++ (some x ∷ []) ≡ map some (q ++ (x ∷ []))
  map-append-one [] x = refl
  map-append-one (y ∷ q) x = ap (◌∷◌ (some y)) (map-append-one q x)

  size-Holds : {d : Deque A} {q : List A} → Holds d q → size d ≡ length q
  size-Holds {d} {q} h =
      sym (length-tabulate (cell d) (size d)) ∙ ap length h.same ∙ length-map some q

  empty-Holds : {d : Deque A} {q : List A} → Holds d q → empty d ≡ (0 == length q)
  unfolding empty
  empty-Holds h = ap (λ n. 0 == n) (size-Holds h)

  head-eq : {c d : Option A} {r s : List (Option A)} → c ∷ r ≡ d ∷ s → c ≡ d
  head-eq e = cc

  tail-eq : {c d : Option A} {r s : List (Option A)} → c ∷ r ≡ d ∷ s → r ≡ s
  tail-eq e = cc

  -- One call, and what it leaves.
  abbrev Stepped : Op A → Deque A → List A → Type ℓ
  Stepped op d q =
      (e : Deque A) × (step op d ≡ ok (reply op q, e))
      × Holds e (after op q)
      × (e.storage.size ≤ d.storage.size + 2)

  step-push :
      (x : A) {d : Deque A} {q : List A}
      → Holds d q
      → (e : Deque A) × (push_back x d ≡ ok e)
        × (IsValid e
            × (contents e ≡ contents d ++ (some x ∷ []))
            × (e.storage.size ≤ d.storage.size + 2))
      → Stepped (push x) d q
  unfolding step reply after
  step-push x {q} h (e, eq, (valid, same, bound)) = (
    e,
    rw eq,
    record {
      valid = valid;
      same = same ∙ ap (λ l. l ++ (some x ∷ [])) h.same ∙ map-append-one q x;
    },
    bound,
  )

  step-pop :
      {x : A} {d : Deque A} {q : List A}
      → Holds d (x ∷ q)
      → (e : Deque A) × (pop_front d ≡ ok e)
        × (IsValid e
            × (front d ≡ ok (cell d 0))
            × (contents d ≡ cell d 0 ∷ contents e)
            × (e.storage.size ≡ d.storage.size))
      → Stepped pop d (x ∷ q)
  unfolding step reply after
  step-pop {d} h (e, eq, (valid, first, split, slots)) =
      let both = sym split ∙ h.same in
      let filled : empty d ≡ false = empty-Holds h ∙ ground arith in
      (
        e,
        rw (filled, first, eq, head-eq both),
        record { valid = valid; same = tail-eq both },
        omega arith,
      )

  step-Stepped :
      (op : Op A) (d : Deque A) (q : List A) → Holds d q → d.storage.size < 2 ^ 31 → Stepped op d q
  step-Stepped (push x) d q h small =
      step-push x h (Returns-value (push_back-contents x d h.valid small))
  step-Stepped pop d [] h small = unfold step reply after in (d, rw (empty-Holds h), h, omega arith)
  step-Stepped pop d (x ∷ q) h small =
      step-pop h (Returns-value (pop_front-contents d h.valid (omega (arith, size-Holds h))))

  -- No sequence of calls tells the deque from a list, while the storage cannot reach 2^31 slots.
  pub run_refines :
      (ops : List (Op A)) (d : Deque A) (q : List A)
      → Holds d q
      → d.storage.size + 2 * length ops < 2 ^ 31
      → run ops d ≡ ok (run_list ops q)
  unfolding run run_list
  run_refines [] d q h small = refl
  run_refines (op ∷ ops) d q h small =
      rest (step-Stepped op d q h (omega arith))
        (λ e held bound. run_refines ops e (after op q) held (omega arith))
    where
      rest :
          Stepped op d q
          → ((e : Deque A)
              → Holds e (after op q)
              → e.storage.size ≤ d.storage.size + 2
              → run ops e ≡ ok (run_list ops (after op q)))
          → run (op ∷ ops) d ≡ ok (reply op q ∷ run_list ops (after op q))
      rest (e, eq, held, bound) later = rw (eq, later e held bound)

  -- Any sequence of fewer than 2^30 calls on the empty deque returns, with the replies that the same
  -- calls on the empty list give.
  pub run-empty_refines :
      (ops : List (Op A)) → length ops < 2 ^ 30 → run ops empty_deque ≡ ok (run_list ops [])
  unfolding empty_deque size
  run-empty_refines ops few =
      run_refines ops empty_deque [] (record { valid = empty_deque-IsValid; same = nothing })
        (omega (arith, few, slots))
    where
      nothing : contents (empty_deque {A = A}) ≡ []
      nothing = refl

      slots : (empty_deque {A = A}).storage.size ≡ 0
      slots = refl
