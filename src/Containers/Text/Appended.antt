-- ===== src/Containers/Text/Appended.antt =====
-- What `+=` and `+` leave of two strings.
use flitos.Base.{
  ℕ, zero, suc, ◌+◌, ◌-◌, ◌%◌, ◌^◌, ◌≤◌, ◌<◌, ◌≡◌, refl, sym, ◌∙◌, arith, ◌==◌, length, get_or, set,
  length-set, get_or-set, none, some, false, ◌>>=◌, Returns, returns, Returns-bind, Returns-mono,
  Bool-cases, ne→==, ==→eq, eq→==, ap, inl, inr,
}
use flitos.Containers.Vector.{Vector, scalar, empty_vector}
use flitos.Containers.Vector.Laws.{IsValid, resize_lem, at-ok, assign-ok}
use flitos.Containers.Text.{text_size, append, append_loop, empty_text, sum}

-- A valid vector with characters, a zero last.
pub record IsText (s : Vector ℕ) : Type 0 where
  pub valid : IsValid s
  pub ended : 0 < s.size
  pub zero_last : get_or s.mem (s.size - 1) none ≡ some 0

-- `w` has the characters of `s`, then its zero, then those of `rhs`, then a zero.
abbrev pub Appended : Vector ℕ → Vector ℕ → Vector ℕ → Type 0
Appended s rhs w =
    IsText w
    × (w.size ≡ s.size + rhs.size)
    × ((i : ℕ) → i < s.size → get_or w.mem i none ≡ get_or s.mem i none)
    × ((i : ℕ) → i < rhs.size → get_or w.mem (s.size + i) none ≡ get_or rhs.mem i none)

Written : ℕ → ℕ → ℕ → Vector ℕ → Vector ℕ → Vector ℕ → Type 0
Written k i old rhs s w =
    (w.size ≡ s.size)
    × (w.cap ≡ s.cap)
    × (length w.mem ≡ length s.mem)
    × ((j : ℕ) → j < i + old → get_or w.mem j none ≡ get_or s.mem j none)
    × ((j : ℕ) → i ≤ j → j < i + k → get_or w.mem (old + j) none ≡ get_or rhs.mem j none)

append_loop-Written :
    (k i old : ℕ) (rhs s : Vector ℕ)
    → i + k ≤ length rhs.mem
    → i + old + k ≤ length s.mem
    → Returns (Written k i old rhs s) (append_loop k i old rhs s)
unfolding append_loop Written
append_loop-Written zero i old rhs s fits room =
    returns (refl, refl, refl, λ j lt. refl, λ j ge lt. absurd (omega arith))
append_loop-Written (suc k) i old rhs s fits room =
    let c = get_or rhs.mem i none in
    let w = record s { mem = set s.mem (i + old) c } in
    let same = length-set s.mem (i + old) c in
    rw (at-ok i rhs (omega arith), assign-ok (i + old) c s (omega arith))
      (Returns-mono (append_loop-Written k (i + 1) old rhs w (omega arith) (omega arith))
        λ u (sized, capped, long, kept, new). (
          sized,
          capped,
          long ∙ same,
          λ j lt.
              kept j (omega arith)
              ∙ get_or-set s.mem (i + old) c j none (omega arith)
              ∙ rw (ne→== (i + old) j (λ e. omega arith)) refl,
          λ j ge lt. elim (Bool-cases (i == j)) [
            | inl now ↦
                let e = ==→eq i j now in
                kept (old + j) (omega arith)
                ∙ get_or-set s.mem (i + old) c (old + j) none (omega arith)
                ∙ rw (eq→== (i + old) (old + j) (omega arith)) (ap (λ x. get_or rhs.mem x none) e)
            | inr later ↦ new j (ground arith) (omega arith)
          ],
        ))

-- On two strings with fewer than 2^31 characters together, `+=` returns; the string keeps its characters
-- and its zero, and those of the other follow behind that zero.
pub append-Appended :
    (s rhs : Vector ℕ)
    → IsText s
    → IsText rhs
    → s.size + rhs.size ≤ 2 ^ 31
    → Returns (Appended s rhs) (append rhs s)
unfolding append text_size Written
append-Appended s rhs text text' small =
    let m = rhs.size - 1 in
    let v = text.valid in
    let v' = text'.valid in
    let room = v.within in
    let plain : (rhs.size + 2 ^ 32 - 1) % 2 ^ 32 ≡ m = (let e = text'.ended in omega arith) in
    let whole : (s.size + m + 1) % 2 ^ 32 ≡ s.size + rhs.size =
      (let e = text'.ended in omega arith) in
    rw (plain, whole)
      (Returns-bind (resize_lem scalar (s.size + rhs.size) s v small)
        λ w (valid, sized, kept, fresh).
          Returns-bind
            (append_loop-Written m 0 s.size rhs w
              (let e = v'.block in let i = v'.within in omega arith)
              (let e = valid.block in let i = valid.within in omega arith))
            λ u (sized', capped, long, same, new).
              let at_last : (u.size + 2 ^ 32 - 1) % 2 ^ 32 ≡ s.size + m =
                (let e = text'.ended in omega arith) in
              let inside : s.size + m < length u.mem =
                (let e = valid.block in
                  let i = valid.within in let t = text'.ended in omega arith) in
              let put = λ (j : ℕ). get_or-set u.mem (s.size + m) (some 0) j none inside in
              rw (at_last, assign-ok (s.size + m) (some 0) u inside)
                (returns (
                  record {
                    valid = record {
                      within = let i = valid.within in omega arith;
                      block =
                          length-set u.mem (s.size + m) (some 0) ∙ long ∙ valid.block ∙ sym capped;
                      small = let i = valid.small in omega arith;
                    };
                    ended = omega (arith, text.ended);
                    zero_last =
                        put (u.size - 1)
                        ∙ rw (eq→== (s.size + m) (u.size - 1) (omega (arith, text'.ended))) refl;
                  },
                  sized' ∙ sized,
                  λ j lt.
                      put j
                      ∙ rw (ne→== (s.size + m) j (λ e. omega arith))
                          (same j (omega arith) ∙ kept j lt (omega arith)),
                  λ j lt. put (s.size + j) ∙ elim (Bool-cases (j == m)) [
                    | inl last ↦
                        let e = ==→eq j m last in
                        rw (eq→== (s.size + m) (s.size + j) (omega arith))
                          (sym text'.zero_last ∙ ap (λ x. get_or rhs.mem x none) (sym e))
                    | inr before ↦
                        let apart : (s.size + m == s.size + j) ≡ false = ground arith in
                        rw apart (new j (omega arith) (ground arith))
                  ],
                )))

empty_text-IsText : Returns (λ (s : Vector ℕ). IsText s × (s.size ≡ 1)) empty_text
unfolding empty_text
empty_text-IsText =
    let nothing : IsValid (empty_vector {A = ℕ}) = record {
      within = omega arith;
      block = refl;
      small = omega arith;
    } in
    Returns-bind (resize_lem scalar 1 empty_vector nothing (omega arith))
      λ w (valid, sized, kept, fresh).
        let inside : 0 < length w.mem =
          (let e = valid.block in let i = valid.within in omega arith) in
        rw (assign-ok 0 (some 0) w inside) (
          returns (
            record {
              valid = record {
                within = valid.within;
                block = length-set w.mem 0 (some 0) ∙ valid.block;
                small = valid.small;
              };
              ended = omega arith;
              zero_last =
                  get_or-set w.mem 0 (some 0) (w.size - 1) none inside
                  ∙ rw (eq→== 0 (w.size - 1) (omega arith)) refl;
            },
            sized,
          ))

-- What the first half of `+` returns
Begun : Vector ℕ → Vector ℕ → Type 0
Begun s u =
    IsText u
    × (u.size ≡ 1 + s.size)
    × (get_or u.mem 0 none ≡ some 0)
    × ((i : ℕ) → i < s.size → get_or u.mem (1 + i) none ≡ get_or s.mem i none)

begin_sum :
    (s : Vector ℕ) → IsText s → s.size + 1 ≤ 2 ^ 31 → Returns (Begun s) (empty_text >>= append s)
unfolding Begun
begin_sum s text small = Returns-bind empty_text-IsText λ e (text₀, one).
    let at_last : 0 ≡ e.size - 1 = omega arith in
    Returns-mono (append-Appended e s text₀ text (omega arith)) λ u (whole, sized, kept, new). (
      whole,
      omega arith,
      kept 0 (omega arith) ∙ ap (λ n. get_or e.mem n none) at_last ∙ text₀.zero_last,
      λ i lt. ap (λ n. get_or u.mem (n + i) none) (sym one) ∙ new i lt,
    )

-- `+` of two strings with fewer than 2^31 - 1 characters together returns a string that begins with a
-- zero, and so reads as an empty one; the characters of both stand behind it.
pub sum-hides :
    (s rhs : Vector ℕ)
    → IsText s
    → IsText rhs
    → s.size + rhs.size + 1 ≤ 2 ^ 31
    → Returns
        (λ w.
          (w.size ≡ 1 + s.size + rhs.size)
          × (get_or w.mem 0 none ≡ some 0)
          × ((i : ℕ) → i < s.size → get_or w.mem (1 + i) none ≡ get_or s.mem i none)
          × ((i : ℕ) → i < rhs.size → get_or w.mem (1 + s.size + i) none ≡ get_or rhs.mem i none))
        (sum s rhs)
unfolding sum Begun
sum-hides s rhs text text' small =
    Returns-bind (begin_sum s text (omega arith)) λ u (whole, sized, first, old).
      Returns-mono (append-Appended u rhs whole text' (omega arith))
        λ w (whole', sized', kept, new). (
          omega arith,
          kept 0 (omega arith) ∙ first,
          λ i lt. kept (1 + i) (omega arith) ∙ old i lt,
          λ i lt. ap (λ n. get_or w.mem (n + i) none) (sym sized) ∙ new i lt,
        )
