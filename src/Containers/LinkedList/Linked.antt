-- ===== src/Containers/LinkedList/Linked.antt =====
-- Chains of nodes in the heap, as lists of their addresses and values.
use flitos.Base.{
  ℕ, suc, ◌≡◌, ◌≢◌, refl, sym, ap, ◌∙◌, ne→==, ==_refl, List, [], ◌∷◌, ◌++◌, length, Option, none,
  some, ◌⊎◌, inl, inr,
}
use flitos.Containers.LinkedList.{Node, Heap, LinkedList, put}

module _ {ℓ} {A : Type ℓ} where
  -- The first address, or `n`; the last, or `p`.
  abbrev pub head_or : ℕ → List (ℕ × A) → ℕ
  head_or n [] = n
  head_or n ((a, v) ∷ cs) = a

  abbrev pub last_or : ℕ → List (ℕ × A) → ℕ
  last_or p [] = p
  last_or p ((a, v) ∷ cs) = last_or a cs

  abbrev pub node : A → ℕ → ℕ → Option (Node A)
  node v p n = some (record { val = v; prev = p; next = n })

  -- Nodes with these values stand at these addresses, behind `p` and before `n`, linked both ways.
  abbrev pub Linked : Heap A → ℕ → List (ℕ × A) → ℕ → Type ℓ
  Linked h p [] n = Unit {ℓ}
  Linked h p ((a, v) ∷ cs) n = (a ≢ 0) × (h a ≡ node v p (head_or n cs)) × Linked h a cs n

  abbrev pub Missing : ℕ → List (ℕ × A) → Type 0
  Missing a [] = Unit {0}
  Missing a ((b, v) ∷ cs) = (b ≢ a) × Missing a cs

  abbrev pub Distinct : List (ℕ × A) → Type 0
  Distinct [] = Unit {0}
  Distinct ((a, v) ∷ cs) = Missing a cs × Distinct cs

  -- What a list object and the heap say of the cells of the list.
  pub record Holds (h : Heap A) (l : LinkedList) (cs : List (ℕ × A)) : Type ℓ where
    pub sized : l.size ≡ length cs
    pub begins : l.begin ≡ head_or 0 cs
    pub ends : l.rbegin ≡ last_or 0 cs
    pub linked : Linked h 0 cs 0
    pub distinct : Distinct cs

  pub put-at : (a : ℕ) (n : Option (Node A)) (h : Heap A) → put a n h a ≡ n
  put-at a n h = rw (==_refl a) refl

  pub put-other : (a b : ℕ) (n : Option (Node A)) (h : Heap A) → b ≢ a → put a n h b ≡ h b
  put-other a b n h other = rw (ne→== b a other) refl

  pub put-Linked :
      (a : ℕ) (x : Option (Node A)) (h : Heap A) (p n : ℕ) (cs : List (ℕ × A))
      → Missing a cs
      → Linked h p cs n
      → Linked (put a x h) p cs n
  put-Linked a x h p n [] out linked = linked
  put-Linked a x h p n ((b, v) ∷ cs) (other, out) (there, stands, linked) =
      (there, put-other a b x h other ∙ stands, put-Linked a x h b n cs out linked)

  pub split-Linked :
      (h : Heap A) (p n : ℕ) (cs ds : List (ℕ × A))
      → Linked h p (cs ++ ds) n
      → Linked h p cs (head_or n ds) × Linked h (last_or p cs) ds n
  split-Linked h p n [] ds linked = (tt, linked)
  split-Linked h p n ((a, v) ∷ []) ds (there, stands, linked) = ((there, stands, tt), linked)
  split-Linked h p n ((a, v) ∷ (b, w) ∷ cs) ds (there, stands, linked) =
      let (front, rest) = split-Linked h a n ((b, w) ∷ cs) ds linked in
      ((there, stands, front), rest)

  pub join-Linked :
      (h : Heap A) (p n : ℕ) (cs ds : List (ℕ × A))
      → Linked h p cs (head_or n ds)
      → Linked h (last_or p cs) ds n
      → Linked h p (cs ++ ds) n
  join-Linked h p n [] ds front rest = rest
  join-Linked h p n ((a, v) ∷ []) ds (there, stands, front) rest = (there, stands, rest)
  join-Linked h p n ((a, v) ∷ (b, w) ∷ cs) ds (there, stands, front) rest =
      (there, stands, join-Linked h a n ((b, w) ∷ cs) ds front rest)

  pub free-Missing :
      (h : Heap A) (p n a : ℕ) (cs : List (ℕ × A)) → h a ≡ none → Linked h p cs n → Missing a cs
  free-Missing h p n a [] free linked = tt
  free-Missing h p n a ((b, v) ∷ cs) free (there, stands, linked) =
      (λ e. let taken = sym stands ∙ ap h e ∙ free in cc, free-Missing h b n a cs free linked)

  pub split-Missing :
      (a : ℕ) (cs : List (ℕ × A)) (c : ℕ × A)
      → Missing a (cs ++ (c ∷ []))
      → Missing a cs × (c.0 ≢ a)
  split-Missing a [] c (other, out) = (tt, other)
  split-Missing a ((b, w) ∷ cs) c (other, out) =
      let (front, last) = split-Missing a cs c out in ((other, front), last)

  pub join-Missing :
      (a : ℕ) (cs : List (ℕ × A)) (c : ℕ × A) → Missing a cs → c.0 ≢ a → Missing a (cs ++ (c ∷ []))
  join-Missing a [] c out other = (other, tt)
  join-Missing a (b ∷ cs) c (first, out) other = (first, join-Missing a cs c out other)

  pub split-Distinct :
      (cs : List (ℕ × A)) (c : ℕ × A) → Distinct (cs ++ (c ∷ [])) → Distinct cs × Missing (c.0) cs
  split-Distinct [] c apart = (tt, tt)
  split-Distinct ((a, v) ∷ cs) c (out, apart) =
      let (front, last) = split-Distinct cs c apart in
      let (before, other) = split-Missing a cs c out in
      ((before, front), (λ e. other (sym e), last))

  drop-Missing :
      (x : ℕ) (ds es : List (ℕ × A)) (c : ℕ × A)
      → Missing x (ds ++ (c ∷ es))
      → (c.0 ≢ x) × Missing x (ds ++ es)
  drop-Missing x [] es c out = out
  drop-Missing x (d ∷ ds) es c (first, out) =
      let (other, rest) = drop-Missing x ds es c out in (other, (first, rest))

  -- A cell out of the middle is not among the others.
  pub drop-Distinct :
      (ds es : List (ℕ × A)) (c : ℕ × A)
      → Distinct (ds ++ (c ∷ es))
      → Missing c.0 ds × Missing c.0 es × Distinct (ds ++ es)
  drop-Distinct [] es c (out, apart) = (tt, out, apart)
  drop-Distinct (d ∷ ds) es c (out, apart) =
      let (before, behind, rest) = drop-Distinct ds es c apart in
      let (other, still) = drop-Missing (d.0) ds es c out in
      ((λ e. other (sym e), before), behind, (still, rest))

  pub join-Distinct :
      (cs : List (ℕ × A)) (a : ℕ) (v : A)
      → Distinct cs
      → Missing a cs
      → Distinct (cs ++ ((a, v) ∷ []))
  join-Distinct [] a v apart out = (tt, tt)
  join-Distinct ((b, w) ∷ cs) a v (first, apart) (other, out) =
      (join-Missing b cs (a, v) first (λ e. other (sym e)), join-Distinct cs a v apart out)

  -- A list is empty or has a last cell.
  pub last_cases :
      (cs : List (ℕ × A)) → (cs ≡ []) ⊎ ((ds : List (ℕ × A)) × (c : ℕ × A) × (cs ≡ ds ++ (c ∷ [])))
  last_cases [] = inl refl
  last_cases (b ∷ cs) = elim (last_cases cs) [
    | inl e ↦ inr ([], b, ap (λ x. b ∷ x) e)
    | inr (ds, c, e) ↦ inr (b ∷ ds, c, ap (λ x. b ∷ x) e)
  ]

  pub last_or-append : (p a : ℕ) (v : A) (cs : List (ℕ × A)) → last_or p (cs ++ ((a, v) ∷ [])) ≡ a
  last_or-append p a v [] = refl
  last_or-append p a v ((b, w) ∷ cs) = last_or-append b a v cs

  pub head_or-append :
      (n a : ℕ) (v : A) (cs : List (ℕ × A)) → head_or n (cs ++ ((a, v) ∷ [])) ≡ head_or a cs
  head_or-append n a v [] = refl
  head_or-append n a v ((b, w) ∷ cs) = refl

  pub head_or-longer :
      (m n a r : ℕ) (v w : A) (ds : List (ℕ × A))
      → head_or m ((ds ++ ((r, w) ∷ [])) ++ ((a, v) ∷ [])) ≡ head_or n (ds ++ ((r, w) ∷ []))
  head_or-longer m n a r v w [] = refl
  head_or-longer m n a r v w ((b, u) ∷ ds) = refl

  pub length-append : (c : ℕ × A) (cs : List (ℕ × A)) → length (cs ++ (c ∷ [])) ≡ suc (length cs)
  length-append c [] = refl
  length-append c (b ∷ cs) = rw (length-append c cs) refl

  pub last_or-tail :
      (p a : ℕ) (v : A) (ds cs : List (ℕ × A)) → last_or p (ds ++ ((a, v) ∷ cs)) ≡ last_or a cs
  last_or-tail p a v [] cs = refl
  last_or-tail p a v ((b, w) ∷ ds) cs = last_or-tail b a v ds cs

  pub head_or-front :
      (n b : ℕ) (w : A) (ds es : List (ℕ × A)) → head_or n (ds ++ ((b, w) ∷ es)) ≡ head_or b ds
  head_or-front n b w [] es = refl
  head_or-front n b w ((c, u) ∷ ds) es = refl

  widen-Missing :
      (y a : ℕ) (x : A) (ds es : List (ℕ × A))
      → a ≢ y
      → Missing y (ds ++ es)
      → Missing y (ds ++ ((a, x) ∷ es))
  widen-Missing y a x [] es other out = (other, out)
  widen-Missing y a x (d ∷ ds) es other (first, out) = (first, widen-Missing y a x ds es other out)

  -- A cell with a new address among the others
  pub widen-Distinct :
      (a : ℕ) (x : A) (ds es : List (ℕ × A))
      → Missing a (ds ++ es)
      → Distinct (ds ++ es)
      → Distinct (ds ++ ((a, x) ∷ es))
  widen-Distinct a x [] es out apart = (out, apart)
  widen-Distinct a x (d ∷ ds) es (other, out) (first, apart) =
      (widen-Missing (d.0) a x ds es (λ e. other (sym e)) first, widen-Distinct a x ds es out apart)

  pub head-Missing : (c b : ℕ) (ds : List (ℕ × A)) → Missing c ds → b ≢ c → c ≢ head_or b ds
  head-Missing c b [] out other = λ e. other (sym e)
  head-Missing c b (d ∷ ds) (first, out) other = λ e. first (sym e)

  pub last-there :
      (h : Heap A) (p b : ℕ) (w : A) (cs : List (ℕ × A))
      → Linked h p ((b, w) ∷ cs) 0
      → last_or b cs ≢ 0
  last-there h p b w [] linked = linked.0
  last-there h p b w ((c, u) ∷ cs) (there, stands, rest) = last-there h b c u cs rest

  pub part-Missing :
      (a : ℕ) (ds es : List (ℕ × A)) → Missing a (ds ++ es) → Missing a ds × Missing a es
  part-Missing a [] es out = (tt, out)
  part-Missing a (d ∷ ds) es (other, out) =
      let (front, rest) = part-Missing a ds es out in ((other, front), rest)
