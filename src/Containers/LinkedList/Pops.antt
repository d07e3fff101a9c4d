-- ===== src/Containers/LinkedList/Pops.antt =====
-- `pop_front`, `pop_back` and `clear` on the cells of the list.
use flitos.Base.{
  ℕ, zero, suc, ◌≤◌, le→ltb, lt→ltb, refl, sym, ap, ◌∙◌, subst, arith, ne→==, List, [], ◌∷◌, ◌++◌,
  length, none, inl, inr, Returns, returns, Returns-bind,
}
use flitos.Containers.LinkedList.{
  Heap, LinkedList, put, set_prev, set_next, delete, pop_back, pop_front, pop_only, clear,
}
use flitos.Containers.LinkedList.Linked
use flitos.Containers.LinkedList.Linked.{Holds, Linked, Missing, Distinct, head_or, last_or, node}
use flitos.Containers.LinkedList.Ends.{Left}

module _ {ℓ} {A : Type ℓ} where
  -- A list of one cell loses it.
  only-Holds :
      (b : ℕ) (w : A) (h : Heap A) (l : LinkedList)
      → Holds h l ((b, w) ∷ [])
      → Returns (Left []) (pop_only h l)
  unfolding delete
  only-Holds b w h l held =
      let (there, stands, _) = held.linked in
      rw (held.begins, stands, ne→== b 0 there)
        (returns (record { sized = refl; begins = refl; ends = refl; linked = tt; distinct = tt }))

  -- `pop_front` returns on a list with an element, which goes; the others stay.
  pub pop_front-Holds :
      (b : ℕ) (w : A) (h : Heap A) (l : LinkedList) (cs : List (ℕ × A))
      → Holds h l ((b, w) ∷ cs)
      → Returns (Left cs) (pop_front h l)
  unfolding pop_front delete set_prev
  pop_front-Holds b w h l [] held = rw held.sized (only-Holds b w h l held)
  pop_front-Holds b w h l ((c, u) ∷ cs) held =
      let (there, stands, (there', stands', rest)) = held.linked in
      let ((apart, no_b), (no_c, distinct)) = held.distinct in
      let n : ℕ = head_or 0 cs in
      let kept₁ = Linked.put-Linked b none h c 0 cs no_b rest in
      let kept₂ = Linked.put-Linked c (node u 0 n) (put b none h) c 0 cs no_c kept₁ in
      let many = held.sized in
      rw
        (
          ne→== l.size 0 (λ e. omega arith),
          ne→== l.size 1 (λ e. omega arith),
          held.begins,
          stands,
          stands',
          stands,
          ne→== b 0 there,
          ne→== c b apart,
          stands',
        )
        (returns (record {
          sized = omega arith;
          begins = refl;
          ends = held.ends;
          linked = (there', Linked.put-at c (node u 0 n) (put b none h), kept₂);
          distinct = (no_c, distinct);
        }))

  pop_back-behind :
      (r q : ℕ) (w u : A) (h : Heap A) (l : LinkedList) (ds : List (ℕ × A))
      → Holds h l ((ds ++ ((q, u) ∷ [])) ++ ((r, w) ∷ []))
      → Returns (Left (ds ++ ((q, u) ∷ []))) (pop_back h l)
  unfolding pop_back delete set_next
  pop_back-behind r q w u h l ds held =
      let cs = ds ++ ((q, u) ∷ []) in
      let (before, (there, stands, _)) = Linked.split-Linked h 0 0 cs ((r, w) ∷ []) held.linked in
      let (front, (there', stands', _)) = Linked.split-Linked h 0 r ds ((q, u) ∷ []) before in
      let (distinct, no_r) = Linked.split-Distinct cs (r, w) held.distinct in
      let (no_r', apart) = Linked.split-Missing r ds (q, u) no_r in
      let (distinct', no_q) = Linked.split-Distinct ds (q, u) distinct in
      let stands_r = stands ∙ ap (λ p. node w p 0) (Linked.last_or-append 0 q u ds) in
      let p : ℕ = last_or 0 ds in
      let kept₁ = Linked.put-Linked r none h 0 q ds no_r' front in
      let kept₂ = Linked.put-Linked q (node u p 0) (put r none h) 0 q ds no_q kept₁ in
      let many = held.sized in
      let longer = Linked.length-append (r, w) cs in
      let long = Linked.length-append (q, u) ds in
      let ends = held.ends ∙ Linked.last_or-append 0 r w cs in
      rw
        (
          ne→== l.size 0 (λ e. omega arith),
          ne→== l.size 1 (λ e. omega arith),
          ends,
          stands_r,
          stands',
          stands_r,
          ne→== r 0 there,
          ne→== q r apart,
          stands',
        )
        (returns (record {
          sized = omega arith;
          begins = held.begins ∙ Linked.head_or-longer 0 0 r q w u ds;
          ends = sym (Linked.last_or-append 0 q u ds);
          linked =
              Linked.join-Linked (put q (node u p 0) (put r none h)) 0 0 ds ((q, u) ∷ []) kept₂
                (there', Linked.put-at q (node u p 0) (put r none h), tt);
          distinct = distinct;
        }))

  pop_back-one :
      (r : ℕ) (w : A) (h : Heap A) (l : LinkedList)
      → Holds h l ((r, w) ∷ [])
      → Returns (Left []) (pop_back h l)
  unfolding pop_back
  pop_back-one r w h l held = rw held.sized (only-Holds r w h l held)

  -- `pop_back` returns on a list with an element, which goes; the others stay.
  pub pop_back-Holds :
      (r : ℕ) (w : A) (h : Heap A) (l : LinkedList) (cs : List (ℕ × A))
      → Holds h l (cs ++ ((r, w) ∷ []))
      → Returns (Left cs) (pop_back h l)
  unfolding pop_back
  pop_back-Holds r w h l cs held = elim (Linked.last_cases cs) [
    | inl e ↦
        subst (λ x. Holds h l (x ++ ((r, w) ∷ [])) → Returns (Left x) (pop_back h l)) (sym e)
          (pop_back-one r w h l) held
    | inr (ds, (q, u), e) ↦
        subst (λ x. Holds h l (x ++ ((r, w) ∷ [])) → Returns (Left x) (pop_back h l)) (sym e)
          (pop_back-behind r q w u h l ds) held
  ]

  -- `clear` returns and empties the list, after at most one round for each element.
  pub clear-Holds :
      (fuel : ℕ) (h : Heap A) (l : LinkedList) (cs : List (ℕ × A))
      → Holds h l cs
      → length cs ≤ fuel
      → Returns (Left []) (clear fuel h l)
  unfolding clear
  clear-Holds zero h l [] held enough =
      let nothing = held.sized in rw (le→ltb 0 l.size (omega arith)) (returns held)
  clear-Holds zero h l (c ∷ cs) held enough = absurd (omega arith)
  clear-Holds (suc f) h l cs held enough = elim (Linked.last_cases cs) [
    | inl e ↦
        let nothing = held.sized ∙ ap length e in
        rw (le→ltb 0 l.size (omega arith)) (returns (subst (λ x. Holds h l x) e held))
    | inr (ds, (r, w), e) ↦
        let held' = subst (λ x. Holds h l x) e held in
        let longer = ap length e ∙ Linked.length-append (r, w) ds in
        let many = held.sized in
        rw (lt→ltb 0 l.size (omega arith)) (
          Returns-bind (pop_back-Holds r w h l ds held')
            λ s left. clear-Holds f (s.0) (s.1) ds left (omega arith))
  ]
