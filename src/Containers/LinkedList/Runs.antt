-- ===== src/Containers/LinkedList/Runs.antt =====
-- Sequences of the list's operations against a list of values.
use flitos.Base.{
  ℕ, ◌+◌, ◌^◌, ◌<◌, ◌≡◌, ◌≢◌, refl, sym, ap, ◌∙◌, subst, arith, List, [], ◌∷◌, ◌++◌, map, length,
  none, inl, inr, Outcome, ok, fault, hang, ◌>>=◌, Returns, returns, Returns-mono, Returns-value,
  eq→==, ◌≤◌, length-map,
}
use flitos.Containers.LinkedList.{
  Heap, LinkedList, push_back, push_front, pop_back, pop_front, clear,
}
use flitos.Containers.LinkedList.Linked
use flitos.Containers.LinkedList.Linked.{Holds}
use flitos.Containers.LinkedList.Ends.{push_back-Holds, push_front-Holds}
use flitos.Containers.LinkedList.Pops.{pop_back-Holds, pop_front-Holds, clear-Holds}

-- A call; a push comes with the address that `new` returned.
pub data Op {ℓ} (A : Type ℓ) : Type ℓ where
  to_back : ℕ → A → Op A
  to_front : ℕ → A → Op A
  from_back : Op A
  from_front : Op A
  all : Op A

-- `P` holds of what is returned.
abbrev pub On {ℓ κ} : {R : Type ℓ} → (R → Type κ) → Outcome R → Type κ
On P (ok r) = P r
On P fault = Unit {κ}
On P hang = Unit {κ}

abbrev drop_back {ℓ} : {A : Type ℓ} → List A → List A
drop_back [] = []
drop_back (v ∷ []) = []
drop_back (v ∷ w ∷ vs) = v ∷ drop_back (w ∷ vs)

-- What the operation means for the values.
abbrev pub mean {ℓ} : {A : Type ℓ} → Op A → List A → List A
mean (to_back a v) vs = vs ++ (v ∷ [])
mean (to_front a v) vs = v ∷ vs
mean from_back vs = drop_back vs
mean from_front [] = []
mean from_front (v ∷ vs) = vs
mean all vs = []

module _ {ℓ} {A : Type ℓ} where
  abbrev pub meaning : List (Op A) → List A → List A
  meaning [] vs = vs
  meaning (o ∷ os) vs = meaning os (mean o vs)

  abbrev pub perform : Op A → Heap A → LinkedList → Outcome (Heap A × LinkedList)
  perform (to_back a v) h l = push_back a v h l
  perform (to_front a v) h l = push_front a v h l
  perform from_back h l = pop_back h l
  perform from_front h l = pop_front h l
  perform all h l = clear l.size h l

  pub run : List (Op A) → Heap A → LinkedList → Outcome (Heap A × LinkedList)
  run [] h l = ok (h, l)
  run (o ∷ os) h l = perform o h l >>= λ r. run os r.0 r.1

  -- The list holds these values, at some addresses.
  pub record Values (vs : List A) (r : Heap A × LinkedList) : Type ℓ where
    pub cells : List (ℕ × A)
    pub holds : Holds (r.0) (r.1) cells
    pub values : map (λ c. c.1) cells ≡ vs

  map-append :
      (cs : List (ℕ × A)) (c : ℕ × A)
      → map (λ c. c.1) (cs ++ (c ∷ [])) ≡ map (λ c. c.1) cs ++ (c.1 ∷ [])
  map-append [] c = refl
  map-append (d ∷ cs) c = ap (λ x. d.1 ∷ x) (map-append cs c)

  length-drop_back : (vs : List A) → length (drop_back vs) ≤ length vs
  length-drop_back [] = omega arith
  length-drop_back (v ∷ []) = omega arith
  length-drop_back (v ∷ w ∷ vs) = let rest = length-drop_back (w ∷ vs) in omega arith

  mean-length : (o : Op A) (vs : List A) → length (mean o vs) ≤ length vs + 1
  mean-length (to_back a v) [] = omega arith
  mean-length (to_back a v) (w ∷ vs) = let rest = mean-length (to_back a v) vs in omega arith
  mean-length (to_front a v) vs = omega arith
  mean-length from_back vs = let rest = length-drop_back vs in omega arith
  mean-length from_front [] = omega arith
  mean-length from_front (v ∷ vs) = omega arith
  mean-length all vs = omega arith

  drop_back-append : (vs : List A) (v : A) → drop_back (vs ++ (v ∷ [])) ≡ vs
  drop_back-append [] v = refl
  drop_back-append (w ∷ []) v = refl
  drop_back-append (w ∷ x ∷ vs) v = ap (λ y. w ∷ y) (drop_back-append (x ∷ vs) v)

  -- What `new` promises of its address, as the heap is then, and of those of the calls that follow.
  abbrev pub Fresh : Op A → Heap A → Type ℓ
  Fresh (to_back a v) h = (h a ≡ none) × (a ≢ 0)
  Fresh (to_front a v) h = (h a ≡ none) × (a ≢ 0)
  Fresh o h = Unit {ℓ}

  unfoldable pub Served : List (Op A) → Heap A → LinkedList → Type ℓ
  Served [] h l = Unit {ℓ}
  Served (o ∷ os) h l =
      Fresh o h × On (λ (r : Heap A × LinkedList). Served os r.0 r.1) (perform o h l)

  nothing_popped : (h : Heap A) (l : LinkedList) → Holds h l [] → Returns (Values []) (pop_back h l)
  unfolding pop_back
  nothing_popped h l held =
      rw (eq→== _ 0 held.sized) (returns (record { cells = []; holds = held; values = refl }))

  nothing_shifted :
      (h : Heap A) (l : LinkedList) → Holds h l [] → Returns (Values []) (pop_front h l)
  unfolding pop_front
  nothing_shifted h l held =
      rw (eq→== _ 0 held.sized) (returns (record { cells = []; holds = held; values = refl }))

  perform-Values :
      (o : Op A) (h : Heap A) (l : LinkedList) (cs : List (ℕ × A))
      → Holds h l cs
      → Fresh o h
      → length cs + 1 < 2 ^ 32
      → Returns (Values (mean o (map (λ c. c.1) cs))) (perform o h l)
  perform-Values (to_back a v) h l cs held fresh room =
      Returns-mono (push_back-Holds a v h l cs held fresh.0 fresh.1 room) λ r left. record {
        cells = cs ++ ((a, v) ∷ []);
        holds = left;
        values = map-append cs (a, v);
      }
  perform-Values (to_front a v) h l cs held fresh room =
      Returns-mono (push_front-Holds a v h l cs held fresh.0 fresh.1 room)
        λ r left. record { cells = (a, v) ∷ cs; holds = left; values = refl }
  perform-Values from_back h l cs held fresh room = elim (Linked.last_cases cs) [
    | inl e ↦
        subst (λ x. Holds h l x → Returns (Values (drop_back (map (λ c. c.1) x))) (pop_back h l))
          (sym e) (nothing_popped h l) held
    | inr (ds, (r, w), e) ↦
        subst (λ x. Holds h l x → Returns (Values (drop_back (map (λ c. c.1) x))) (pop_back h l))
          (sym e)
          (λ held'. Returns-mono (pop_back-Holds r w h l ds held') λ s left. record {
            cells = ds;
            holds = left;
            values = sym (ap drop_back (map-append ds (r, w)) ∙ drop_back-append _ w);
          })
          held
  ]
  perform-Values from_front h l [] held fresh room = nothing_shifted h l held
  perform-Values from_front h l ((b, w) ∷ cs) held fresh room =
      Returns-mono (pop_front-Holds b w h l cs held)
        λ r left. record { cells = cs; holds = left; values = refl }
  perform-Values all h l cs held fresh room =
      Returns-mono (clear-Holds l.size h l cs held (let s = held.sized in omega arith))
        λ r left. record { cells = []; holds = left; values = refl }

  run-Values :
      (os : List (Op A)) (h : Heap A) (l : LinkedList) (cs : List (ℕ × A))
      → Holds h l cs
      → Served os h l
      → length cs + length os < 2 ^ 32
      → Returns (Values (meaning os (map (λ c. c.1) cs))) (run os h l)
  unfolding run Served
  run-Values [] h l cs held fresh room =
      returns (record { cells = cs; holds = held; values = refl })
  run-Values (o ∷ os) h l cs held (fresh, later) room =
      let (r, eq, left) = Returns-value (perform-Values o h l cs held fresh (omega arith)) in
      let later' = subst (λ m. On (λ (r : Heap A × LinkedList). Served os r.0 r.1) m) eq later in
      let shown = left.values in
      let grown = mean-length o (map (λ c. c.1) cs) in
      let as_long = length-map (λ c. c.1) cs in
      let as_long' = sym (length-map (λ c. c.1) left.cells) ∙ ap length shown in
      rw (eq, ← shown) (run-Values os r.0 r.1 left.cells left.holds later' (omega arith))

  -- A sequence of `push_back`, `push_front`, `pop_back`, `pop_front` and `clear` on a new list returns,
  -- and the list then holds the values of the same operations on a list of values. `new` gives addresses
  -- that are free and not null, and there are fewer than 2^32 operations.
  pub run-refines :
      (os : List (Op A)) (h : Heap A)
      → Served os h (record { size = 0; begin = 0; rbegin = 0 })
      → length os < 2 ^ 32
      → Returns (Values (meaning os [])) (run os h (record { size = 0; begin = 0; rbegin = 0 }))
  run-refines os h fresh room =
      run-Values os h _ []
        (record { sized = refl; begins = refl; ends = refl; linked = tt; distinct = tt }) fresh
        (omega arith)
