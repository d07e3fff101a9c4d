-- ===== src/Cartridge/Game/Hits.antt =====
-- `calculateCollision` against its geometry.
use flitos.Base.{
  ◌≡◌, refl, sym, subst, arith, Bool, true, false, ◌&&◌, ◌||◌, ltb_ℤ, FitsInt, add_int-exact, ◌⊎◌,
  inl, inr, ◌↔◌, leb_ℤ, leb_ℤ→≤, ≤→leb_ℤ, leb_ℤ-false, +ℤ_parts, ℤ, pos, ◌+ℤ◌, ◌≤ℤ◌, Bool-cases,
  if◌then◌else◌,
}
use flitos.Cartridge.Game.{Pillar, off_screen, calculate_collision}

-- The point (a, b) is in the rectangle from (x, y), its border included.
abbrev pub Inside : ℤ → ℤ → ℤ → ℤ → ℤ → ℤ → Type 0
Inside x y w h a b = (x ≤ℤ a) × (a ≤ℤ x +ℤ w) × (y ≤ℤ b) × (b ≤ℤ y +ℤ h)

-- The bird's rectangle of 34 by 24 is on the screen of 512 by 288.
abbrev pub OnScreen : ℤ → ℤ → Type 0
OnScreen x y = (pos 0 ≤ℤ x) × (x +ℤ pos 34 ≤ℤ pos 512) × (pos 0 ≤ℤ y) × (y +ℤ pos 24 ≤ℤ pos 288)

abbrev pub CommonPoint : ℤ → ℤ → Pillar → Type 0
CommonPoint x y p =
    (a : ℤ) × (b : ℤ) × Inside x y (pos 34) (pos 24) a b × Inside p.x p.y (pos 52) p.height a b

-- The sums of the code are in the range of an `int`.
pub record SumsFit (x y : ℤ) (p : Pillar) : Type 0 where
  pub right : FitsInt (x +ℤ pos 34)
  pub bottom : FitsInt (y +ℤ pos 24)
  pub pillar_right : FitsInt (p.x +ℤ pos 52)
  pub pillar_bottom : FitsInt (p.y +ℤ p.height)

-- The tests of the code, with sums that do not wrap.
unfoldable outside : ℤ → ℤ → Bool
outside x y =
    ltb_ℤ x (pos 0)
    || ltb_ℤ (pos 512) (x +ℤ pos 34)
    || ltb_ℤ y (pos 0)
    || ltb_ℤ (pos 288) (y +ℤ pos 24)

unfoldable hits : ℤ → ℤ → Pillar → Bool
hits x y p =
    if outside x y
    then true
    else leb_ℤ p.x (x +ℤ pos 34)
      && leb_ℤ x (p.x +ℤ pos 52)
      && leb_ℤ p.y (y +ℤ pos 24)
      && leb_ℤ y (p.y +ℤ p.height)

calculate_collision-hits :
    (x y : ℤ) (p : Pillar) → SumsFit x y p → calculate_collision x y p ≡ hits x y p
unfolding calculate_collision off_screen hits outside
calculate_collision-hits x y p fit =
    rw
      (
        add_int-exact x (pos 34) fit.right,
        add_int-exact y (pos 24) fit.bottom,
        add_int-exact p.x (pos 52) fit.pillar_right,
        add_int-exact p.y p.height fit.pillar_bottom,
      )
      refl

outside-true : (x y : ℤ) → outside x y ≡ true → ¬ OnScreen x y
unfolding outside
outside-true x y off (a, b, c, d) = ground arith

outside-false : (x y : ℤ) → outside x y ≡ false → OnScreen x y
unfolding outside
outside-false x y on = (ground arith, ground arith, ground arith, ground arith)

-- Two stretches share a point where each begins before the other ends.
overlap :
    (a w b v : ℤ)
    → pos 0 ≤ℤ w
    → pos 0 ≤ℤ v
    → a ≤ℤ b +ℤ v
    → b ≤ℤ a +ℤ w
    → (c : ℤ) × (a ≤ℤ c) × (c ≤ℤ a +ℤ w) × (b ≤ℤ c) × (c ≤ℤ b +ℤ v)
overlap a w b v hw hv h k = elim (Bool-cases (leb_ℤ a b)) [
  | inl first ↦ (b, leb_ℤ→≤ a b first, k, omega arith, starts b v hv)
  | inr second ↦ (a, omega arith, starts a w hw, leb_ℤ-false a b second, h)
]
  where
    starts : (c u : ℤ) → pos 0 ≤ℤ u → c ≤ℤ c +ℤ u
    starts c u hu = let both = +ℤ_parts c u in omega arith

-- The last test, on the stretches of both axes.
abbrev Meets : ℤ → ℤ → Pillar → Type 0
Meets x y p =
    (p.x ≤ℤ x +ℤ pos 34) × (x ≤ℤ p.x +ℤ pos 52) × (p.y ≤ℤ y +ℤ pos 24) × (y ≤ℤ p.y +ℤ p.height)

split_and : (a b : Bool) → (a && b) ≡ true → (a ≡ true) × (b ≡ true)
split_and true true h = (refl, refl)
split_and true false h = (refl, h)
split_and false b h = (h, ground arith)

hits-Meets : (x y : ℤ) (p : Pillar) → outside x y ≡ false → hits x y p ≡ true → Meets x y p
unfolding hits
hits-Meets x y p on hit =
    let inner =
      subst
        (λ o.
          (if o
            then true
            else leb_ℤ p.x (x +ℤ pos 34)
              && leb_ℤ x (p.x +ℤ pos 52)
              && leb_ℤ p.y (y +ℤ pos 24)
              && leb_ℤ y (p.y +ℤ p.height))
          ≡ true)
        on hit in
    let (three, fourth) = split_and _ _ inner in
    let (two, third) = split_and _ _ three in
    let (first, second) = split_and _ _ two in
    (
      leb_ℤ→≤ p.x (x +ℤ pos 34) first,
      leb_ℤ→≤ x (p.x +ℤ pos 52) second,
      leb_ℤ→≤ p.y (y +ℤ pos 24) third,
      leb_ℤ→≤ y (p.y +ℤ p.height) fourth,
    )

Meets-hit : (x y : ℤ) (p : Pillar) → outside x y ≡ false → Meets x y p → hits x y p ≡ true
unfolding hits
Meets-hit x y p on (a, b, c, d) =
    rw (on, ≤→leb_ℤ _ _ a, ≤→leb_ℤ _ _ b, ≤→leb_ℤ _ _ c, ≤→leb_ℤ _ _ d) refl

Meets-CommonPoint : (x y : ℤ) (p : Pillar) → pos 0 ≤ℤ p.height → Meets x y p → CommonPoint x y p
Meets-CommonPoint x y p tall (a, b, c, d) =
    let (i, i1, i2, i3, i4) = overlap x (pos 34) p.x (pos 52) (omega arith) (omega arith) b a in
    let (j, j1, j2, j3, j4) = overlap y (pos 24) p.y p.height (omega arith) tall d c in
    (i, j, (i1, i2, j1, j2), (i3, i4, j3, j4))

CommonPoint-Meets : (x y : ℤ) (p : Pillar) → CommonPoint x y p → Meets x y p
CommonPoint-Meets x y p (i, j, (i1, i2, j1, j2), (i3, i4, j3, j4)) =
    (omega arith, omega arith, omega arith, omega arith)

hits-exact :
    (x y : ℤ) (p : Pillar)
    → pos 0 ≤ℤ p.height
    → (hits x y p ≡ true) ↔ ((¬ OnScreen x y) ⊎ CommonPoint x y p)
unfolding hits
hits-exact x y p tall = elim (Bool-cases (outside x y)) [
  | inl off ↦ (λ _. inl (outside-true x y off), λ _. rw off refl)
  | inr on ↦ (
    λ hit. inr (Meets-CommonPoint x y p tall (hits-Meets x y p on hit)),
    λ h. Meets-hit x y p on (elim h [
      | inl out ↦ elim (out (outside-false x y on)) [ ]
      | inr common ↦ CommonPoint-Meets x y p common
    ]),
  )
]

-- Where the four sums of the code are in the range of an `int`, and for a pillar whose height is not
-- negative, the code finds a collision exactly where the bird is not wholly on the screen or shares a
-- point with the pillar, which counts as 52 wide.
pub calculate_collision-exact :
    (x y : ℤ) (p : Pillar)
    → SumsFit x y p
    → pos 0 ≤ℤ p.height
    → (calculate_collision x y p ≡ true) ↔ ((¬ OnScreen x y) ⊎ CommonPoint x y p)
calculate_collision-exact x y p fit tall =
    subst (λ b. (b ≡ true) ↔ ((¬ OnScreen x y) ⊎ CommonPoint x y p))
      (sym (calculate_collision-hits x y p fit)) (hits-exact x y p tall)
