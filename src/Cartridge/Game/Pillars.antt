-- ===== src/Cartridge/Game/Pillars.antt =====
-- Where the blocks of a pillar stand: as `createABottom` and `createATop` make them.
use flitos.Base.{
  ℕ, suc, ◌+◌, ◌-◌, ◌*◌, ◌≤◌, ◌<◌, ◌≡◌, refl, ap, arith, ltb, List, [], ◌∷◌, ℤ, pos, ◌+ℤ◌, ◌-ℤ◌,
  ◌≤ℤ◌, lt→ltb, le→ltb, Bool-cases, inl, inr, sub_add, sub-le, le-sub, ◌∙◌, sym, Outcome, ok, fault,
}
use flitos.Cartridge.Game.{Block, Pillar, create_a_bottom, bottom_loop, put_block}

-- The first `n` blocks stand at `x`, one below the other from row `y` on, and end at row `e`.
pub data Stacked : ℤ → ℤ → ℤ → ℕ → List Block → Type 0 where
  done : {x y e : ℤ} {bs : List Block} → y ≡ e → Stacked x y e 0 bs
  next :
      {x y e : ℤ} {n : ℕ} {b : Block} {bs : List Block}
      → b.x ≡ x
      → b.y ≡ y
      → Stacked x (y +ℤ pos 64) e n bs
      → Stacked x y e (suc n) (b ∷ bs)

-- What `createABottom` returns for a height of `n` blocks, the last of them in part below the screen.
abbrev pub Reaches : ℕ → ℕ → Outcome Pillar → Type 0
Reaches x height made =
    (p : Pillar) × (e : ℤ) × (made ≡ ok p)
    × (p.y ≡ pos 288 -ℤ pos height)
    × (pos 288 ≤ℤ e)
    × (e ≤ℤ pos 351)
    × Stacked (pos x) p.y e p.block_number p.blocks

-- The block that `createABottom` makes in its round `i`.
abbrev bottom_block : Block → ℕ → ℕ → ℕ → Block
bottom_block junk x height i = record junk {
  x = pos x;
  y = pos (i * 64 + 288) -ℤ pos height;
  height = pos 64;
}

abbrev bottom_pillar : ℕ → ℕ → ℕ → List Block → Pillar
bottom_pillar x height n bs = record {
  x = pos x;
  y = pos 288 -ℤ pos height;
  height = pos height;
  block_number = n;
  blocks = bs;
}

-- For a height of 1 to 192, `createABottom` returns a pillar whose blocks stand one below the other from
-- the pillar's top, at its `x`, down to the bottom of the screen or at most 63 rows below.
pub create_a_bottom-Reaches :
    (junk : Block) (x height : ℕ) (p : Pillar) (b0 b1 b2 : Block)
    → p.blocks ≡ b0 ∷ b1 ∷ b2 ∷ []
    → 0 < height
    → height ≤ 192
    → Reaches x height (create_a_bottom junk x height p)
unfolding create_a_bottom bottom_loop put_block
create_a_bottom-Reaches junk x height p b0 b1 b2 three above below =
    elim (Bool-cases (ltb 0 (height - 64))) [
      | inr one ↦ (
        bottom_pillar x height 1 (at 0 ∷ b1 ∷ b2 ∷ []),
        pos 352 -ℤ pos height,
        rw (three, lt→ltb 0 height above, one) refl,
        refl,
        le-sub 352 height 288 (ground arith),
        sub-le 352 height 351 (omega arith),
        next refl refl (done (sub_add 288 height 64)),
      )
      | inl more ↦ elim (Bool-cases (ltb 0 (height - 64 - 64))) [
        | inr two ↦ (
          bottom_pillar x height 2 (at 0 ∷ at 1 ∷ b2 ∷ []),
          pos 416 -ℤ pos height,
          rw (three, lt→ltb 0 height above, more, two) refl,
          refl,
          le-sub 416 height 288 (ground arith),
          sub-le 416 height 351 (ground arith),
          next refl refl (next refl (sym (sub_add 288 height 64)) (done (twice 288 height))),
        )
        | inl most ↦ (
          bottom_pillar x height 3 (at 0 ∷ at 1 ∷ at 2 ∷ []),
          pos 480 -ℤ pos height,
          rw
              (
                three,
                lt→ltb 0 height above,
                more,
                most,
                le→ltb 0 (height - 64 - 64 - 64) (omega arith),
              )
              refl,
          refl,
          le-sub 480 height 288 (omega arith),
          sub-le 480 height 351 (ground arith),
          next refl refl (
              next refl (sym (sub_add 288 height 64)) (
                next refl (sym (twice 288 height))
                  (done (ap (λ y. y +ℤ pos 64) (twice 288 height) ∙ sub_add 416 height 64)))),
        )
      ]
    ]
  where
    at : ℕ → Block
    at = bottom_block junk x height

    twice : (a h : ℕ) → ((pos a -ℤ pos h) +ℤ pos 64) +ℤ pos 64 ≡ pos (a + 64 + 64) -ℤ pos h
    twice a h = ap (λ y. y +ℤ pos 64) (sub_add a h 64) ∙ sub_add (a + 64) h 64

-- A height over 192 makes `createABottom` write behind the pillar's array of three blocks.
pub create_a_bottom-overflows :
    (junk : Block) (x height : ℕ) (p : Pillar) (b0 b1 b2 : Block)
    → p.blocks ≡ b0 ∷ b1 ∷ b2 ∷ []
    → 192 < height
    → create_a_bottom junk x height p ≡ fault
unfolding create_a_bottom bottom_loop put_block
create_a_bottom-overflows junk x height p b0 b1 b2 three over =
    rw
      (
        three,
        lt→ltb 0 height (omega arith),
        lt→ltb 0 (height - 64) (omega arith),
        lt→ltb 0 (height - 64 - 64) (omega arith),
        lt→ltb 0 (height - 64 - 64 - 64) (omega arith),
      )
      refl
