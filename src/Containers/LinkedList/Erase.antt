-- ===== src/Containers/LinkedList/Erase.antt =====
-- What `erase` leaves behind.
use flitos.Base.{ℕ, ◌≡◌, refl, false, sym, ◌∙◌, ne→==, List, ◌∷◌, ◌++◌, none, ok, fault}
use flitos.Containers.LinkedList.{
  Heap, LinkedList, put, begin_of, set_prev, set_next, delete, increment, erase, front,
}
use flitos.Containers.LinkedList.Linked
use flitos.Containers.LinkedList.Linked.{Holds, Linked, head_or, last_or, node}

module _ {ℓ} {A : Type ℓ} where
  -- `erase(begin())` on a list of two elements or more returns, and `begin_` still points to the freed
  -- node: reading `front()` is undefined then.
  pub erase-front :
      (b c : ℕ) (w u : A) (h : Heap A) (l : LinkedList) (cs : List (ℕ × A))
      → Holds h l ((b, w) ∷ (c, u) ∷ cs)
      → (h' : Heap A) × (erase (begin_of l) h l ≡ ok (h', l, record { p = c; reach_end = false }))
        × (front h' l ≡ fault)
  unfolding erase begin_of increment set_prev set_next delete front
  erase-front b c w u h l cs held =
      let (there, stands, (there', stands', rest)) = held.linked in
      let ((apart, no_b), distinct) = held.distinct in
      let n : ℕ = head_or 0 cs in
      let h₁ = put c (node u 0 n) h in
      let same_b = Linked.put-other c b (node u 0 n) h (λ e. apart (sym e)) in
      (
        put b none h₁,
        rw
            (
              held.begins,
              ne→== b 0 there,
              stands,
              ne→== c 0 there',
              stands,
              ne→== c 0 there',
              stands',
              ne→== b c (λ e. apart (sym e)),
              stands,
            )
            refl,
        rw (held.begins, Linked.put-at b none h₁) refl,
      )

  -- `erase` of an element between two others links these to each other, frees its node and returns the
  -- iterator behind it; the size of the list is not reduced.
  pub erase-between :
      (a b c : ℕ) (v w u : A) (h : Heap A) (l : LinkedList) (ds cs : List (ℕ × A))
      → Holds h l (ds ++ ((a, v) ∷ (b, w) ∷ (c, u) ∷ cs))
      → (h' : Heap A) × (erase (record { p = b; reach_end = false }) h l
          ≡ ok (h', l, record { p = c; reach_end = false }))
        × Linked h' 0 (ds ++ ((a, v) ∷ (c, u) ∷ cs)) 0
        × (h' b ≡ none)
  unfolding erase increment set_prev set_next delete
  erase-between a b c v w u h l ds cs held =
      let (front, (a0, at_a, (b0, at_b, (c0, at_c, rest)))) =
        Linked.split-Linked h 0 0 ds ((a, v) ∷ (b, w) ∷ (c, u) ∷ cs) held.linked in
      let (a_ds, (ab, (ac, a_cs)), apart) =
        Linked.drop-Distinct ds ((b, w) ∷ (c, u) ∷ cs) (a, v) held.distinct in
      let (b_ds, (bc, b_cs), apart') = Linked.drop-Distinct ds ((c, u) ∷ cs) (b, w) apart in
      let (c_ds, c_cs, _) = Linked.drop-Distinct ds cs (c, u) apart' in
      let p : ℕ = last_or 0 ds in
      let n : ℕ = head_or 0 cs in
      let h₁ = put a (node v p c) h in
      let h₂ = put c (node u a n) h₁ in
      let kept =
        λ (x y : ℕ) (ds : List (ℕ × A)) (no_a : Linked.Missing a ds) (no_b : Linked.Missing b ds)
            (no_c : Linked.Missing c ds) (l : Linked h x ds y).
          Linked.put-Linked b none h₂ x y ds no_b (
            Linked.put-Linked c (node u a n) h₁ x y ds no_c
              (Linked.put-Linked a (node v p c) h x y ds no_a l)) in
      let b_other = Linked.put-other a b (node v p c) h ab in
      let c_other = Linked.put-other a c (node v p c) h ac in
      (
        put b none h₂,
        rw
            (
              ne→== b 0 b0,
              at_b,
              ne→== c 0 c0,
              ne→== a 0 a0,
              at_a,
              ne→== b a ab,
              at_b,
              ne→== c 0 c0,
              ne→== c a ac,
              at_c,
              ne→== b c (λ e. bc (sym e)),
              at_b,
              ne→== b a ab,
            )
            refl,
        Linked.join-Linked (put b none h₂) 0 0 ds ((a, v) ∷ (c, u) ∷ cs)
            (kept 0 a ds a_ds b_ds c_ds front)
            (
              a0,
              Linked.put-other b a none h₂ (λ e. ab (sym e))
                  ∙ Linked.put-other c a (node u a n) h₁ (λ e. ac (sym e))
                  ∙ Linked.put-at a (node v p c) h,
              (
                c0,
                Linked.put-other b c none h₂ bc ∙ Linked.put-at c (node u a n) h₁,
                kept c 0 cs a_cs b_cs c_cs rest,
              ),
            ),
        Linked.put-at b none h₂,
      )
