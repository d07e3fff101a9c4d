-- ===== src/Cartridge/Game/Moves.antt =====
-- `movePillar`, once and over the rounds of `movePillarThread`.
use flitos.Base.{
  ℕ, zero, suc, ◌+◌, ◌-◌, ◌*◌, ◌≤◌, ◌≡◌, refl, sym, ◌∙◌, subst₂, eq_of_parts, -ℤ_parts, arith, List,
  [], ◌∷◌, length, ℤ, pos, negsuc, ◌-ℤ◌, ◌≤ℤ◌, ltb_ℤ, if◌then◌else◌, Outcome, ok, ◌>>=◌,
}
use flitos.Cartridge.Video.{Request}
use flitos.Cartridge.Game.{Block, Pillar, move_blocks, move_pillar, show_block}

-- The first `n` blocks are there and stand at `x`.
pub data At : ℤ → ℕ → List Block → Type 0 where
  none_left : {x : ℤ} {bs : List Block} → At x 0 bs
  block_at :
      {x : ℤ} {n : ℕ} {b : Block} {bs : List Block} → b.x ≡ x → At x n bs → At x (suc n) (b ∷ bs)

-- Where a block goes that has left the screen.
abbrev pub wrap : ℤ → ℤ
wrap x = if ltb_ℤ x (negsuc 63) then pos 512 else x

move_blocks-At :
    (n : ℕ) (o c px : ℤ) (bs : List Block)
    → At c n bs
    → (q : ℤ) × (bs' : List Block) × (rs : List Request) × (move_blocks n o px bs ≡ ok (q, bs', rs))
      × At (wrap (c -ℤ o)) n bs'
      × (length rs ≡ n)
unfolding move_blocks
move_blocks-At zero o c px bs none_left = (px, bs, [], refl, none_left, refl)
move_blocks-At (suc n) o c px [] gone = elim gone [ ]
move_blocks-At (suc n) o c px (b ∷ bs) (block_at here rest) =
    let (q, bs', rs, eq, there, sent) = move_blocks-At n o c (b.x -ℤ o) bs rest in
    (
      q,
      record b { x = wrap (b.x -ℤ o) } ∷ bs',
      show_block (record b { x = wrap (b.x -ℤ o) }) b.control_index ∷ rs,
      rw eq refl,
      block_at (rw here refl) there,
      rw sent refl,
    )

-- What a round leaves of a pillar whose blocks stand at `c`.
abbrev pub MovedTo : ℤ → Pillar → Outcome (Pillar × List Request) → Type 0
MovedTo c p done =
    (p' : Pillar) × (rs : List Request) × (done ≡ ok (p', rs))
    × (p'.block_number ≡ p.block_number)
    × (p'.height ≡ p.height)
    × At c p.block_number p'.blocks
    × (length rs ≡ p.block_number)

-- A pillar whose blocks all stand at one `x` keeps them together: `movePillar` returns, sends one request
-- for each block, and all stand at that `x` less the offset, or at 512 where that is below -64.
pub move_pillar-At :
    (p : Pillar) (offset c : ℤ)
    → At c p.block_number p.blocks
    → MovedTo (wrap (c -ℤ offset)) p (move_pillar p offset)
unfolding move_pillar
move_pillar-At p offset c together =
    let (q, bs', rs, eq, there, sent) =
      move_blocks-At p.block_number offset c p.x p.blocks together in
    (record p { x = q; blocks = bs' }, rs, rw eq refl, refl, refl, there, sent)

pub stands : {x y : ℤ} {n k : ℕ} {bs : List Block} → x ≡ y → n ≡ k → At x n bs → At y k bs
stands {bs} left same there = subst₂ (λ a b. At a b bs) left same there

pub wrap-range : (x : ℤ) → x ≤ℤ pos 512 → (negsuc 63 ≤ℤ wrap x) × (wrap x ≤ℤ pos 512)
wrap-range x before = (ground arith, ground arith)

-- Rounds of the loop of `movePillarThread`, for one pillar
pub move_times : ℕ → Pillar → Outcome Pillar
move_times zero p = ok p
move_times (suc n) p = move_pillar p (pos 2) >>= λ r. move_times n r.0

wrap-left : (x : ℤ) → x ≤ℤ negsuc 64 → wrap x ≡ pos 512
wrap-left x out = ground arith

wrap-right : (x : ℤ) → negsuc 63 ≤ℤ x → wrap x ≡ x
wrap-right x seen = ground arith

wrap-gone : (c : ℕ) → c ≤ 1 → wrap ((pos c -ℤ pos 64) -ℤ pos 2) ≡ pos 512
wrap-gone c near =
    let first = -ℤ_parts (pos c) (pos 64) in
    let second = -ℤ_parts (pos c -ℤ pos 64) (pos 2) in
    wrap-left ((pos c -ℤ pos 64) -ℤ pos 2) (omega arith)

wrap-on : (c : ℕ) → 2 ≤ c → wrap ((pos c -ℤ pos 64) -ℤ pos 2) ≡ pos (c - 2) -ℤ pos 64
wrap-on c far =
    let first = -ℤ_parts (pos c) (pos 64) in
    let second = -ℤ_parts (pos c -ℤ pos 64) (pos 2) in
    let third = -ℤ_parts (pos (c - 2)) (pos 64) in
    wrap-right ((pos c -ℤ pos 64) -ℤ pos 2) (omega arith)
    ∙ eq_of_parts ((pos c -ℤ pos 64) -ℤ pos 2) (pos (c - 2) -ℤ pos 64) (omega arith)

-- A pillar whose blocks stand together at `c` - 64 comes back at the right border, 512: by movements of 2
-- per round, in the round after the first `n` for which `c` is at most 2n + 1.
pub move_times-returns :
    (n c : ℕ) (p : Pillar)
    → 2 * n ≤ c
    → c ≤ 2 * n + 1
    → At (pos c -ℤ pos 64) p.block_number p.blocks
    → (p' : Pillar) × (move_times (suc n) p ≡ ok p') × At (pos 512) p'.block_number p'.blocks
unfolding move_times
move_times-returns zero c p early late together =
    let (p', rs, eq, same, tall, there, sent) =
      move_pillar-At p (pos 2) (pos c -ℤ pos 64) together in
    (p', rw eq refl, stands (wrap-gone c (omega arith)) (sym same) there)
move_times-returns (suc n) c p early late together =
    let (p', rs, eq, same, tall, there, sent) =
      move_pillar-At p (pos 2) (pos c -ℤ pos 64) together in
    let again = stands (wrap-on c (omega arith)) (sym same) there in
    let (p'', eq', back) = move_times-returns n (c - 2) p' (omega arith) (omega arith) again in
    (p'', rw eq eq', back)
