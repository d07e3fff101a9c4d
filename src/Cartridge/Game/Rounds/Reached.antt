-- ===== src/Cartridge/Game/Rounds/Reached.antt =====
-- Runs of the game: the rounds of its threads in any order.
use flitos.Base.{
  ℕ, ◌≡◌, refl, ◌≤◌, arith, List, [], ◌∷◌, ℤ, pos, negsuc, ◌-ℤ◌, ◌≤ℤ◌, -ℤ_parts, Option, some, none,
  ok, Returns, returns, Returns-bind, sym, subst, Bool-cases, inl, inr, ◌==◌, ltb, ◌+◌, ◌-◌, ◌^◌,
  ◌%◌,
}
use flitos.Cartridge.Video.{Request}
use flitos.Cartridge.Game.{
  Block, Pillar, Images, move_pillar, create_bottoms, create_tops, create_row, count_x_position,
  create_a_bottom, bottom_loop, put_block, create_a_top, top_loop, create_a_pillar, create_sprites,
}
use flitos.Cartridge.Game.Moves.{At, block_at, none_left, move_pillar-At, wrap-range, stands, wrap}
use flitos.Cartridge.Game.Rounds.{
  World, Round, graphics_round, gravity_round, collision_round, move_round, move_all, make_pillars,
  create_all,
}

pub data Every (P : Pillar → Type 0) : List Pillar → Type 0 where
  nothing : Every P []
  also : {p : Pillar} {ps : List Pillar} → P p → Every P ps → Every P (p ∷ ps)

-- The blocks of the pillar stand together, from just left of the screen to its right border, and its
-- height is not negative.
pub record Standing (p : Pillar) : Type 0 where
  pub at : ℤ
  pub from_left : negsuc 63 ≤ℤ at
  pub to_right : at ≤ℤ pos 512
  pub together : At at p.block_number p.blocks
  pub tall : pos 0 ≤ℤ p.height

-- One round of one of the threads that share the world
pub data Step : World → World → Type 0 where
  drawn :
      {w w' : World} {rs : List Request} (text : ℕ → ℕ → ℕ × ℕ) (ticks seq status : ℕ)
      → graphics_round text ticks seq status w ≡ ok (some (w', rs))
      → Step w w'
  fell :
      {w w' : World} {rs : List Request} (ticks : ℕ)
      → gravity_round ticks w ≡ ok (some (w', rs))
      → Step w w'
  checked :
      {w w' : World} {rs : List Request} (img_01 img_02 ticks : ℕ)
      → collision_round img_01 img_02 ticks w ≡ ok (some (w', rs))
      → Step w w'
  scrolled : {w w' : World} {rs : List Request} → move_round w ≡ ok (some (w', rs)) → Step w w'

pub data Reach : World → World → Type 0 where
  here : {w : World} → Reach w w
  step : {u v w : World} → Step u v → Reach v w → Reach u w

move_pillar-Standing :
    (p : Pillar)
    → Standing p
    → Returns (λ (r : Pillar × List Request). Standing r.0) (move_pillar p (pos 2))
move_pillar-Standing p s =
    let (p', rs, eq, same, height, there, sent) = move_pillar-At p (pos 2) s.at s.together in
    let diff = -ℤ_parts s.at (pos 2) in
    let (low, high) = wrap-range (s.at -ℤ pos 2) (let r = s.to_right in omega arith) in
    rw eq (
      returns (record {
        at = wrap (s.at -ℤ pos 2);
        from_left = low;
        to_right = high;
        together = stands refl (sym same) there;
        tall = rw height s.tall;
      }))

-- `move_all` returns on standing pillars, which it leaves standing.
pub move_all-Standing :
    (ps : List Pillar)
    → Every Standing ps
    → Returns (λ (r : List Pillar × List Request). Every Standing r.0) (move_all ps)
unfolding move_all
move_all-Standing [] nothing = returns nothing
move_all-Standing (p ∷ ps) (also s rest) =
    Returns-bind (move_pillar-Standing p s)
      λ r good. Returns-bind (move_all-Standing ps rest) λ rest goods. returns (also good goods)

-- What a round that goes on leaves.
Leaves : (World → Type 0) → Option (World × List Request) → Type 0
Leaves P none = Unit {0}
Leaves P (some r) = P r.0

AllStand : World → Type 0
AllStand w = Every Standing w.pillars

graphics_round-AllStand :
    (text : ℕ → ℕ → ℕ × ℕ) (ticks seq status : ℕ) (w : World)
    → AllStand w
    → Returns (Leaves AllStand) (graphics_round text ticks seq status w)
unfolding graphics_round Leaves AllStand
graphics_round-AllStand text ticks seq status w good = elim (Bool-cases (w.running_flag == 0)) [
  | inl over ↦ rw over (returns tt)
  | inr on ↦ elim (Bool-cases (ticks == w.graphics_last)) [
    | inl again ↦ rw (on, again) (returns good)
    | inr later ↦ rw (on, later) (returns good)
  ]
]

gravity_round-AllStand :
    (ticks : ℕ) (w : World) → AllStand w → Returns (Leaves AllStand) (gravity_round ticks w)
unfolding gravity_round Leaves AllStand
gravity_round-AllStand ticks w good = elim (Bool-cases (w.running_flag == 0)) [
  | inl over ↦ rw over (returns tt)
  | inr on ↦ elim (Bool-cases (ltb ((ticks + 2 ^ 32 - w.gravity_last) % 2 ^ 32) 3)) [
    | inl early ↦ rw (on, early) (returns good)
    | inr later ↦ rw (on, later) (returns good)
  ]
]

collision_round-AllStand :
    (img_01 img_02 ticks : ℕ) (w : World)
    → AllStand w
    → Returns (Leaves AllStand) (collision_round img_01 img_02 ticks w)
unfolding collision_round Leaves AllStand
collision_round-AllStand img_01 img_02 ticks w good = elim (Bool-cases (w.running_flag == 0)) [
  | inl over ↦ rw over (returns tt)
  | inr on ↦ elim (Bool-cases (ticks == w.collision_last)) [
    | inl again ↦ rw (on, again) (returns good)
    | inr later ↦ rw (on, later) (returns good)
  ]
]

move_round-AllStand : (w : World) → AllStand w → Returns (Leaves AllStand) (move_round w)
unfolding move_round Leaves AllStand
move_round-AllStand w good = elim (Bool-cases (w.running_flag == 0)) [
  | inl over ↦ rw over (returns tt)
  | inr on ↦ rw on (Returns-bind (move_all-Standing w.pillars good) λ r goods. returns goods)
]

left :
    {w' : World} {rs : List Request} {round : Round}
    → Returns (Leaves AllStand) round
    → round ≡ ok (some (w', rs))
    → AllStand w'
unfolding Leaves
left {w'} {rs} done eq = value (subst (λ r. Returns (Leaves AllStand) r) eq done)
  where
    value : Returns (Leaves AllStand) (ok (some (w', rs))) → AllStand w'
    value (returns good) = good

Step-AllStand : (w w' : World) → AllStand w → Step w w' → AllStand w'
Step-AllStand w w' good (drawn text ticks seq status eq) =
    left (graphics_round-AllStand text ticks seq status w good) eq
Step-AllStand w w' good (fell ticks eq) = left (gravity_round-AllStand ticks w good) eq
Step-AllStand w w' good (checked img_01 img_02 ticks eq) =
    left (collision_round-AllStand img_01 img_02 ticks w good) eq
Step-AllStand w w' good (scrolled eq) = left (move_round-AllStand w good) eq

-- In every world that rounds in any order lead to from one with standing pillars, the pillars stand.
pub Reach-Standing :
    (w w' : World) → Every Standing w.pillars → Reach w w' → Every Standing w'.pillars
unfolding AllStand
Reach-Standing w w' good here = good
Reach-Standing w w' good (step {v = v} s later) =
    Reach-Standing v w' (Step-AllStand w v good s) later

two : {x : ℤ} {a b : Block} {bs : List Block} → a.x ≡ x → b.x ≡ x → At x 2 (a ∷ b ∷ bs)
two first second = block_at first (block_at second none_left)

stand :
    {px y : ℤ} {h n : ℕ} {bs : List Block} (x : ℕ)
    → x ≤ 512
    → At (pos x) n bs
    → Standing (record { x = px; y = y; height = pos h; block_number = n; blocks = bs })
stand x near there = record {
  at = pos x;
  from_left = omega arith;
  to_right = omega arith;
  together = there;
  tall = omega arith;
}

-- With whatever the stack held, `movePillarThread` makes pillars that stand, before its loop.
pub make_pillars-Standing :
    (im : Images) (junk_block b0 b1 b2 : Block) (junk : Pillar)
    → junk.blocks ≡ b0 ∷ b1 ∷ b2 ∷ []
    → Returns
        (λ (r : List Pillar × List Request). Every Standing r.0)
        (make_pillars im junk_block junk)
unfolding make_pillars create_bottoms create_tops create_row count_x_position create_a_bottom
    bottom_loop put_block create_a_top top_loop create_all create_a_pillar create_sprites
make_pillars-Standing im junk_block b0 b1 b2 junk three = rw three (
    returns (
      also (stand 100 (omega arith) (two refl refl)) (
        also (stand 264 (omega arith) (block_at refl (two refl refl))) (
          also (stand 428 (omega arith) (two refl refl)) (
            also (stand 100 (omega arith) (two refl refl)) (
              also (stand 264 (omega arith) (block_at refl none_left))
                (also (stand 428 (omega arith) (two refl refl)) nothing)))))))
