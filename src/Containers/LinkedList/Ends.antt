-- ===== src/Containers/LinkedList/Ends.antt =====
-- `push_back` and `push_front` on the cells of the list.
use flitos.Base.{
  ℕ, ◌+◌, ◌%◌, ◌^◌, ◌<◌, ◌≡◌, ◌≢◌, refl, sym, ap, ◌∙◌, subst, arith, ne→==, ==_refl, List, [], ◌∷◌,
  ◌++◌, length, none, inl, inr, ok, Returns, returns,
}
use flitos.Containers.LinkedList.{
  Heap, LinkedList, put, new_node, set_prev, set_next, push_back, push_front,
}
use flitos.Containers.LinkedList.Linked
use flitos.Containers.LinkedList.Linked.{Holds, Linked, Missing, Distinct, head_or, last_or, node}

module _ {ℓ} {A : Type ℓ} where
  -- The state after a call: the list holds `cs`.
  abbrev pub Left : List (ℕ × A) → Heap A × LinkedList → Type ℓ
  Left cs r = Holds (r.0) (r.1) cs

  alone :
      (a : ℕ) (v : A) (h : Heap A)
      → a ≢ 0
      → Holds (new_node a v h) (record { size = 1; begin = a; rbegin = a }) ((a, v) ∷ [])
  alone a v h there = record {
    sized = refl;
    begins = refl;
    ends = refl;
    linked = (there, Linked.put-at a (node v 0 0) h, tt);
    distinct = (tt, tt);
  }

  -- The heap after a push on a list that has a node, at `r`.
  abbrev pushed : ℕ → A → ℕ → A → ℕ → Heap A → Heap A
  pushed a v r w q h = put a (node v r 0) (put r (node w q a) (new_node a v h))

  push_back-ok :
      (a r q : ℕ) (v w : A) (h : Heap A) (l : LinkedList)
      → l.size ≢ 0
      → l.rbegin ≡ r
      → h r ≡ node w q 0
      → r ≢ a
      → push_back a v h l
        ≡ ok (pushed a v r w q h, record l { size = (l.size + 1) % 2 ^ 32; rbegin = a })
  unfolding push_back set_next set_prev
  push_back-ok a r q v w h l some_there ends stands apart =
      rw
        (
          ne→== _ 0 some_there,
          ends,
          ne→== r a apart,
          stands,
          ==_refl r,
          ne→== a r (λ e. apart (sym e)),
          ==_refl a,
          ne→== r a apart,
          ==_refl r,
        )
        refl

  -- A node is added between `r` and the null pointer.
  behind-Linked :
      (a r : ℕ) (v w : A) (h : Heap A) (ds : List (ℕ × A))
      → a ≢ 0
      → r ≢ 0
      → r ≢ a
      → Missing a ds
      → Missing r ds
      → Linked h 0 ds r
      → Linked (pushed a v r w (last_or 0 ds) h) 0 ((ds ++ ((r, w) ∷ [])) ++ ((a, v) ∷ [])) 0
  behind-Linked a r v w h ds there there' apart no_a no_r front =
      let q : ℕ = last_or 0 ds in
      let h₁ = new_node a v h in
      let h₂ = put r (node w q a) h₁ in
      let h₃ = put a (node v r 0) h₂ in
      let kept₁ = Linked.put-Linked a (node v 0 0) h 0 r ds no_a front in
      let kept₂ = Linked.put-Linked r (node w q a) h₁ 0 r ds no_r kept₁ in
      let kept₃ = Linked.put-Linked a (node v r 0) h₂ 0 r ds no_a kept₂ in
      let r_stands = Linked.put-other a r (node v r 0) h₂ apart ∙ Linked.put-at r (node w q a) h₁ in
      let a_stands =
        Linked.put-at a (node v r 0) h₂
        ∙ ap (λ p. node v p 0) (sym (Linked.last_or-append 0 r w ds)) in
      Linked.join-Linked h₃ 0 0 (ds ++ ((r, w) ∷ [])) ((a, v) ∷ [])
        (Linked.join-Linked h₃ 0 a ds ((r, w) ∷ []) kept₃ (there', r_stands, tt))
        (there, a_stands, tt)

  push_back-behind :
      (a r : ℕ) (v w : A) (h : Heap A) (l : LinkedList) (ds : List (ℕ × A))
      → Holds h l (ds ++ ((r, w) ∷ []))
      → h a ≡ none
      → a ≢ 0
      → length (ds ++ ((r, w) ∷ [])) + 1 < 2 ^ 32
      → Returns (Left ((ds ++ ((r, w) ∷ [])) ++ ((a, v) ∷ []))) (push_back a v h l)
  push_back-behind a r v w h l ds held free there room =
      let cs = ds ++ ((r, w) ∷ []) in
      let (front, (there', stands, _)) = Linked.split-Linked h 0 0 ds ((r, w) ∷ []) held.linked in
      let out = Linked.free-Missing h 0 0 a cs free held.linked in
      let (no_a, apart) = Linked.split-Missing a ds (r, w) out in
      let (distinct, no_r) = Linked.split-Distinct ds (r, w) held.distinct in
      let one_more = Linked.length-append (r, w) ds in
      rw
        (push_back-ok a r (last_or 0 ds) v w h l (λ e. let sized = held.sized in omega arith)
          (held.ends ∙ Linked.last_or-append 0 r w ds) stands apart)
        (returns (record {
          sized =
              let sized = held.sized in let grown = Linked.length-append (a, v) cs in omega arith;
          begins = held.begins ∙ sym (Linked.head_or-longer 0 0 a r v w ds);
          ends = sym (Linked.last_or-append 0 a v cs);
          linked = behind-Linked a r v w h ds there there' apart no_a no_r front;
          distinct = Linked.join-Distinct cs a v held.distinct out;
        }))

  -- With an address that was free and is not null, on a list of fewer than 2^32 - 1 elements,
  -- `push_back` returns and the list holds the new cell behind the others.
  pub push_back-Holds :
      (a : ℕ) (v : A) (h : Heap A) (l : LinkedList) (cs : List (ℕ × A))
      → Holds h l cs
      → h a ≡ none
      → a ≢ 0
      → length cs + 1 < 2 ^ 32
      → Returns (Left (cs ++ ((a, v) ∷ []))) (push_back a v h l)
  unfolding push_back
  push_back-Holds a v h l cs held free there room = elim (Linked.last_cases cs) [
    | inl e ↦ rw (held.sized, e) (returns (alone a v h there))
    | inr (ds, (r, w), e) ↦
        subst
          (λ x.
            Holds h l x
            → length x + 1 < 2 ^ 32
            → Returns (Left (x ++ ((a, v) ∷ []))) (push_back a v h l))
          (sym e) (λ held' room'. push_back-behind a r v w h l ds held' free there room') held room
  ]

  abbrev pushed_front : ℕ → A → ℕ → A → ℕ → Heap A → Heap A
  pushed_front a v b w n h = put a (node v 0 b) (put b (node w a n) (new_node a v h))

  push_front-ok :
      (a b n : ℕ) (v w : A) (h : Heap A) (l : LinkedList)
      → l.size ≢ 0
      → l.begin ≡ b
      → h b ≡ node w 0 n
      → b ≢ a
      → push_front a v h l
        ≡ ok (pushed_front a v b w n h, record l { size = (l.size + 1) % 2 ^ 32; begin = a })
  unfolding push_front set_next set_prev
  push_front-ok a b n v w h l some_there begins stands apart =
      rw
        (
          ne→== _ 0 some_there,
          begins,
          ne→== b a apart,
          stands,
          ==_refl b,
          ne→== a b (λ e. apart (sym e)),
          ==_refl a,
          ne→== b a apart,
          ==_refl b,
        )
        refl

  -- With an address that was free and is not null, on a list of fewer than 2^32 - 1 elements,
  -- `push_front` returns and the list holds the new cell before the others.
  pub push_front-Holds :
      (a : ℕ) (v : A) (h : Heap A) (l : LinkedList) (cs : List (ℕ × A))
      → Holds h l cs
      → h a ≡ none
      → a ≢ 0
      → length cs + 1 < 2 ^ 32
      → Returns (Left ((a, v) ∷ cs)) (push_front a v h l)
  unfolding push_front
  push_front-Holds a v h l [] held free there room = rw held.sized (returns (alone a v h there))
  push_front-Holds a v h l ((b, w) ∷ cs) held free there room =
      let (there', stands, rest) = held.linked in
      let (apart, no_a) = Linked.free-Missing h 0 0 a ((b, w) ∷ cs) free held.linked in
      let n : ℕ = head_or 0 cs in
      let h₁ = new_node a v h in
      let h₂ = put b (node w a n) h₁ in
      let kept₁ = Linked.put-Linked a (node v 0 0) h b 0 cs no_a rest in
      let kept₂ = Linked.put-Linked b (node w a n) h₁ b 0 cs (held.distinct.0) kept₁ in
      let kept₃ = Linked.put-Linked a (node v 0 b) h₂ b 0 cs no_a kept₂ in
      rw
        (push_front-ok a b n v w h l (λ e. let sized = held.sized in omega arith) held.begins stands
          apart)
        (returns (record {
          sized = let sized = held.sized in omega arith;
          begins = refl;
          ends = held.ends;
          linked = (
            there,
            Linked.put-at a (node v 0 b) h₂,
            (
              there',
              Linked.put-other a b (node v 0 b) h₂ apart ∙ Linked.put-at b (node w a n) h₁,
              kept₃,
            ),
          );
          distinct = ((apart, no_a), held.distinct);
        }))
