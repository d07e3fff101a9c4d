-- ===== src/Containers/OrderedMap/Subscript.antt =====
-- `operator[]` of the ordered map.
use flitos.Base.{
  ℕ, ◌+◌, ◌^◌, ◌<◌, ◌≡◌, ◌≢◌, refl, sym, ap, ◌∙◌, subst, arith, true, false, ◌==◌, leb, Bool-cases,
  inl, inr, if◌then◌else◌, List, [], ◌∷◌, ◌++◌, append_assoc, length, map, Table, contains, none,
  Returns, returns, Returns-bind,
}
use flitos.Containers.LinkedList.{Heap, LinkedList, Iterator, end_of}
use flitos.Containers.LinkedList.Linked
use flitos.Containers.LinkedList.Linked.{Holds, Linked, last_or, node}
use flitos.Containers.LinkedList.Iterators.{same-before_end, same-end}
use flitos.Containers.LinkedList.Insert.{insert-Holds, insert-end}
use flitos.Containers.OrderedMap.{key_from, subscript}
use flitos.Containers.OrderedMap.Search.{first_at, search-first}

-- A new pair before the first pair whose key is not below its own
unfoldable pub placed {ℓ} : {V : Type ℓ} → ℕ → V → Table V → Table V
placed k d [] = (k, d) ∷ []
placed k d ((j, v) ∷ t) = if leb k j then (k, d) ∷ (j, v) ∷ t else (j, v) ∷ placed k d t

module _ {ℓ} {V : Type ℓ} where
  abbrev pairs : List (ℕ × (ℕ × V)) → Table V
  pairs cs = map (λ c. c.1) cs

  abbrev start_of : ℕ → List (ℕ × (ℕ × V)) → Iterator
  start_of e [] = record { p = e; reach_end = true }
  start_of e ((c, u) ∷ cs) = record { p = c; reach_end = false }

  -- The first pair is not one with the key.
  abbrev Skips : ℕ → List (ℕ × (ℕ × V)) → Type 0
  Skips k [] = Unit {0}
  Skips k ((c, (j, v)) ∷ cs) = (j == k) ≡ false

  -- Where the search for a key that is not there cuts the list
  record Cut (k : ℕ) (d : V) (cs : List (ℕ × (ℕ × V))) : Type ℓ where
    before : List (ℕ × (ℕ × V))
    behind : List (ℕ × (ℕ × V))
    whole : cs ≡ before ++ behind
    found : (e : ℕ) → first_at (key_from k) e cs ≡ start_of e behind
    skips : Skips k behind
    goes_there : placed k d (pairs cs) ≡ pairs before ++ ((k, d) ∷ pairs behind)

  cut : (k : ℕ) (d : V) (cs : List (ℕ × (ℕ × V))) → contains k (pairs cs) ≡ false → Cut k d cs
  unfolding contains first_at placed
  cut k d [] absent = record {
    before = [];
    behind = [];
    whole = refl;
    found = λ e. refl;
    skips = tt;
    goes_there = refl;
  }
  cut k d ((a, (j, v)) ∷ cs) absent = elim (Bool-cases (leb k j)) [
    | inl here ↦ record {
      before = [];
      behind = (a, (j, v)) ∷ cs;
      whole = refl;
      found = λ e. rw here refl;
      skips = ground arith;
      goes_there = rw here refl;
    }
    | inr later ↦
        let rest = cut k d cs (ground arith) in
        record {
          before = (a, (j, v)) ∷ rest.before;
          behind = rest.behind;
          whole = ap (λ x. (a, (j, v)) ∷ x) rest.whole;
          found = λ e. rw later (rest.found e);
          skips = rest.skips;
          goes_there = rw later (ap (λ x. (j, v) ∷ x) rest.goes_there);
        }
  ]

  pairs-append : (ds es : List (ℕ × (ℕ × V))) → pairs (ds ++ es) ≡ pairs ds ++ pairs es
  pairs-append [] es = refl
  pairs-append (c ∷ ds) es = ap (λ x. c.1 ∷ x) (pairs-append ds es)

  -- The list holds the pairs of `t`, and the reference is to the node `a`.
  abbrev pub Placed : ℕ → Table V → Heap (ℕ × V) × LinkedList × ℕ → Type ℓ
  Placed a t r = (cs : List (ℕ × (ℕ × V))) × Holds r.0 r.1 cs × (pairs cs ≡ t) × (r.2 ≡ a)

  -- The subscript, cut where the search has found its place
  subscript-cut :
      (a k : ℕ) (d : V) (h : Heap (ℕ × V)) (l : LinkedList) (ds es : List (ℕ × (ℕ × V)))
      → Holds h l (ds ++ es)
      → Skips k es
      → ((e : ℕ) → first_at (key_from k) e (ds ++ es) ≡ start_of e es)
      → h a ≡ none
      → a ≢ 0
      → length (ds ++ es) + 1 < 2 ^ 32
      → Returns (Placed a (pairs ds ++ ((k, d) ∷ pairs es))) (subscript a d k h l)
  unfolding subscript end_of
  subscript-cut a k d h l ds [] held skips found free there room =
      let ends = held.ends in
      rw
        (
          search-first (key_from k) h l (ds ++ []) held,
          found (last_or 0 (ds ++ [])),
          ← ends,
          same-end l.rbegin,
        )
        (Returns-bind (insert-end a (k, d) h l (ds ++ []) held free there room) λ r (left, at).
          returns (
            (ds ++ []) ++ ((a, (k, d)) ∷ []),
            left,
            ap pairs (append_assoc ds [] ((a, (k, d)) ∷ [])) ∙ pairs-append ds _,
            at,
          ))
  subscript-cut a k d h l ds ((c, (j, v)) ∷ es) held skips found free there room =
      let (before, (c0, at_c, rest)) =
        Linked.split-Linked h 0 0 ds ((c, (j, v)) ∷ es) held.linked in
      rw
        (
          search-first (key_from k) h l (ds ++ ((c, (j, v)) ∷ es)) held,
          found (last_or 0 (ds ++ ((c, (j, v)) ∷ es))),
          same-before_end c l.rbegin c0,
          at_c,
          skips,
        )
        (Returns-bind (insert-Holds a c (k, d) (j, v) h l ds es held free there room)
          λ r (left, at).
            returns (ds ++ ((a, (k, d)) ∷ (c, (j, v)) ∷ es), left, pairs-append ds _, at))

  -- `m[k]` of a key that is not in the map returns; the list then holds the new pair, with the default
  -- value, before the first pair with a greater key, and the reference is to its node. `new` gives an
  -- address that is free and not null, and the map has fewer than 2^32 - 1 pairs.
  pub subscript-Placed :
      (a k : ℕ) (d : V) (h : Heap (ℕ × V)) (l : LinkedList) (cs : List (ℕ × (ℕ × V)))
      → Holds h l cs
      → contains k (map (λ c. c.1) cs) ≡ false
      → h a ≡ none
      → a ≢ 0
      → length cs + 1 < 2 ^ 32
      → Returns (Placed a (placed k d (map (λ c. c.1) cs))) (subscript a d k h l)
  subscript-Placed a k d h l cs held absent free there room =
      let at = cut k d cs absent in
      rw at.goes_there (
        subscript-cut a k d h l at.before at.behind (subst (λ x. Holds h l x) at.whole held)
          at.skips (λ e. ap (first_at (key_from k) e) (sym at.whole) ∙ at.found e) free there
          (subst (λ x. length x + 1 < 2 ^ 32) at.whole room))
