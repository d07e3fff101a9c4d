-- ===== src/Containers/LinkedList/Insert.antt =====
-- `insert` at an iterator of the list.
use flitos.Base.{
  ℕ, ◌+◌, ◌%◌, ◌^◌, ◌<◌, ◌≡◌, ◌≢◌, refl, sym, ap, ◌∙◌, subst, arith, false, true, ne→==, ==_refl,
  length, length-append, append_assoc, List, [], ◌∷◌, ◌++◌, none, inl, inr, ok, Returns, returns,
  Returns-bind,
}
use flitos.Containers.LinkedList.{
  Heap, LinkedList, Iterator, put, new_node, begin_of, end_of, same, set_prev, set_next, insert,
}
use flitos.Containers.LinkedList.Iterators.{
  same-before_end, same-here, same-apart, both_null, same-end-begin, same-end,
}
use flitos.Containers.LinkedList.Linked
use flitos.Containers.LinkedList.Linked.{Holds, Linked, Missing, Distinct, head_or, last_or, node}
use flitos.Containers.LinkedList.Ends.{push_back-Holds, push_front-Holds}

module _ {ℓ} {A : Type ℓ} where
  -- The list holds `cs`, and the iterator is at `a`.
  abbrev pub Inserted : ℕ → List (ℕ × A) → Heap A × LinkedList × Iterator → Type ℓ
  Inserted a cs r = Holds r.0 r.1 cs × (r.2.p ≡ a)

  insert-first :
      (a c : ℕ) (x u : A) (h : Heap A) (l : LinkedList) (cs : List (ℕ × A))
      → Holds h l ((c, u) ∷ cs)
      → h a ≡ none
      → a ≢ 0
      → length cs + 2 < 2 ^ 32
      → Returns
          (Inserted a ((a, x) ∷ (c, u) ∷ cs))
          (insert a (record { p = c; reach_end = false }) x h l)
  unfolding insert begin_of
  insert-first a c x u h l cs held free there room =
      let first =
        subst
          (λ b.
            same (record { p = c; reach_end = false }) (record { p = b; reach_end = false }) ≡ true)
          (sym held.begins) (same-here c) in
      rw first (
        Returns-bind (push_front-Holds a x h l ((c, u) ∷ cs) held free there (omega arith))
          λ r left. returns (left, left.begins))

  -- The heap after an insertion between `b` and `c`
  abbrev between : ℕ → A → ℕ → A → ℕ → ℕ → A → ℕ → Heap A → Heap A
  between a x b w p c u n h =
      put a (node x b c)
        (put c (node u a n) (put a (node x b 0) (put b (node w p a) (new_node a x h))))

  between-ok :
      (a b c p n : ℕ) (x w u : A) (h : Heap A) (l : LinkedList)
      → a ≢ b
      → a ≢ c
      → b ≢ c
      → c ≢ 0
      → c ≢ l.begin
      → h b ≡ node w p c
      → h c ≡ node u b n
      → insert a (record { p = c; reach_end = false }) x h l
        ≡ ok (
          between a x b w p c u n h,
          record l { size = (l.size + 1) % 2 ^ 32 },
          record { p = a; reach_end = true },
        )
  unfolding insert begin_of end_of set_prev set_next
  between-ok a b c p n x w u h l ab ac bc c0 inner at_b at_c =
      rw
        (
          same-apart c l.begin c0 inner,
          same-before_end c l.rbegin c0,
          at_c,
          ne→== b a (λ e. ab (sym e)),
          at_b,
          ne→== a b ab,
          ==_refl a,
          ne→== c a (λ e. ac (sym e)),
          ne→== c b (λ e. bc (sym e)),
          at_c,
          ne→== a c ac,
          ==_refl a,
        )
        refl

  between-Linked :
      (a b c p n : ℕ) (x w u : A) (h : Heap A) (q y : ℕ) (cs : List (ℕ × A))
      → Missing a cs
      → Missing b cs
      → Missing c cs
      → Linked h q cs y
      → Linked (between a x b w p c u n h) q cs y
  between-Linked a b c p n x w u h q y cs no_a no_b no_c linked =
      let h₁ = new_node a x h in
      let h₂ = put b (node w p a) h₁ in
      let h₃ = put a (node x b 0) h₂ in
      let kept₁ = Linked.put-Linked a (node x 0 0) h q y cs no_a linked in
      let kept₂ = Linked.put-Linked b (node w p a) h₁ q y cs no_b kept₁ in
      let kept₃ = Linked.put-Linked a (node x b 0) h₂ q y cs no_a kept₂ in
      let kept₄ = Linked.put-Linked c (node u a n) h₃ q y cs no_c kept₃ in
      Linked.put-Linked a (node x b c) (put c (node u a n) h₃) q y cs no_a kept₄

  insert-between :
      (a b c : ℕ) (x w u : A) (h : Heap A) (l : LinkedList) (ds cs : List (ℕ × A))
      → Holds h l (ds ++ ((b, w) ∷ (c, u) ∷ cs))
      → h a ≡ none
      → a ≢ 0
      → length (ds ++ ((b, w) ∷ (c, u) ∷ cs)) + 1 < 2 ^ 32
      → Returns
          (Inserted a (ds ++ ((b, w) ∷ (a, x) ∷ (c, u) ∷ cs)))
          (insert a (record { p = c; reach_end = false }) x h l)
  insert-between a b c x w u h l ds cs held free there room =
      let (front, (b0, at_b, (c0, at_c, rest))) =
        Linked.split-Linked h 0 0 ds ((b, w) ∷ (c, u) ∷ cs) held.linked in
      let (b_ds, (cb, b_cs), apart) = Linked.drop-Distinct ds ((c, u) ∷ cs) (b, w) held.distinct in
      let (c_ds, c_cs, _) = Linked.drop-Distinct ds cs (c, u) apart in
      let out = Linked.free-Missing h 0 0 a (ds ++ ((b, w) ∷ (c, u) ∷ cs)) free held.linked in
      let (a_ds, (ba, (ca, a_cs))) = Linked.part-Missing a ds ((b, w) ∷ (c, u) ∷ cs) out in
      let p : ℕ = last_or 0 ds in
      let n : ℕ = head_or 0 cs in
      let h₁ = put b (node w p a) (new_node a x h) in
      let h₃ = put a (node x b 0) h₁ in
      let h₄ = put c (node u a n) h₃ in
      let ba' =
        Linked.put-other a b (node x b c) h₄ ba
        ∙ Linked.put-other c b (node u a n) h₃ (λ e. cb (sym e))
        ∙ Linked.put-other a b (node x b 0) h₁ ba
        ∙ Linked.put-at b (node w p a) (new_node a x h) in
      let inner = λ (e : c ≡ l.begin).
        Linked.head-Missing c b ds c_ds (λ e. cb (sym e))
          (e ∙ held.begins ∙ Linked.head_or-front 0 b w ds _) in
      let whole = append_assoc ds ((b, w) ∷ []) in
      rw
        (between-ok a b c p n x w u h l (λ e. ba (sym e)) (λ e. ca (sym e)) (λ e. cb (sym e)) c0
          inner at_b at_c)
        (returns (
          record {
            sized =
                let was = length-append ds ((b, w) ∷ (c, u) ∷ cs) in
                let now = length-append ds ((b, w) ∷ (a, x) ∷ (c, u) ∷ cs) in
                let sized = held.sized in omega arith;
            begins =
                held.begins
                ∙ Linked.head_or-front 0 b w ds _
                ∙ sym (Linked.head_or-front 0 b w ds _);
            ends =
                held.ends ∙ Linked.last_or-tail 0 b w ds _ ∙ sym (Linked.last_or-tail 0 b w ds _);
            linked =
                Linked.join-Linked (between a x b w p c u n h) 0 0 ds
                  ((b, w) ∷ (a, x) ∷ (c, u) ∷ cs)
                  (between-Linked a b c p n x w u h 0 b ds a_ds b_ds c_ds front)
                  (
                    b0,
                    ba',
                    (
                      there,
                      Linked.put-at a (node x b c) h₄,
                      (
                        c0,
                        Linked.put-other a c (node x b c) h₄ ca ∙ Linked.put-at c (node u a n) h₃,
                        between-Linked a b c p n x w u h c 0 cs a_cs b_cs c_cs rest,
                      ),
                    ),
                  );
            distinct = subst Distinct (whole ((a, x) ∷ (c, u) ∷ cs)) (
                Linked.widen-Distinct a x (ds ++ ((b, w) ∷ [])) ((c, u) ∷ cs)
                  (subst (Missing a) (sym (whole ((c, u) ∷ cs))) out)
                  (subst Distinct (sym (whole ((c, u) ∷ cs))) held.distinct));
          },
          refl,
        ))

  -- `insert` at the iterator of an element returns, and the new element stands before that one.
  pub insert-Holds :
      (a c : ℕ) (x u : A) (h : Heap A) (l : LinkedList) (ds cs : List (ℕ × A))
      → Holds h l (ds ++ ((c, u) ∷ cs))
      → h a ≡ none
      → a ≢ 0
      → length (ds ++ ((c, u) ∷ cs)) + 1 < 2 ^ 32
      → Returns
          (Inserted a (ds ++ ((a, x) ∷ (c, u) ∷ cs)))
          (insert a (record { p = c; reach_end = false }) x h l)
  insert-Holds a c x u h l ds cs held free there room = elim (Linked.last_cases ds) [
    | inl e ↦
        let held' = subst (λ y. Holds h l (y ++ ((c, u) ∷ cs))) e held in
        let room' = subst (λ y. length (y ++ ((c, u) ∷ cs)) + 1 < 2 ^ 32) e room in
        subst
          (λ y.
            Returns (Inserted a (y ++ ((a, x) ∷ (c, u) ∷ cs)))
              (insert a (record { p = c; reach_end = false }) x h l))
          (sym e) (insert-first a c x u h l cs held' free there (omega arith))
    | inr (es, (b, w), e) ↦
        let parts = λ (ys : List (ℕ × A)). ap (λ y. y ++ ys) e ∙ append_assoc es ((b, w) ∷ []) ys in
        let held' = subst (λ y. Holds h l y) (parts ((c, u) ∷ cs)) held in
        let room' = subst (λ y. length y + 1 < 2 ^ 32) (parts ((c, u) ∷ cs)) room in
        subst (λ y. Returns (Inserted a y) (insert a (record { p = c; reach_end = false }) x h l))
          (sym (parts ((a, x) ∷ (c, u) ∷ cs)))
          (insert-between a b c x w u h l es cs held' free there room')
  ]

  -- `insert` at the end returns, and the new element is the last.
  pub insert-end :
      (a : ℕ) (x : A) (h : Heap A) (l : LinkedList) (cs : List (ℕ × A))
      → Holds h l cs
      → h a ≡ none
      → a ≢ 0
      → length cs + 1 < 2 ^ 32
      → Returns (Inserted a (cs ++ ((a, x) ∷ []))) (insert a (end_of l) x h l)
  unfolding insert end_of begin_of
  insert-end a x h l [] held free there room =
      let both = both_null l held.begins held.ends in
      rw both (
        Returns-bind (push_front-Holds a x h l [] held free there room)
          λ r left. returns (left, left.begins))
  insert-end a x h l ((b, w) ∷ cs) held free there room =
      let not_first =
        same-end-begin l
          (subst (λ r. r ≢ 0) (sym held.ends) (Linked.last-there h 0 b w cs held.linked)) in
      rw (not_first, same-end l.rbegin)
        (Returns-bind (push_back-Holds a x h l ((b, w) ∷ cs) held free there room)
          λ r left. returns (left, left.ends ∙ Linked.last_or-append b a x cs))
