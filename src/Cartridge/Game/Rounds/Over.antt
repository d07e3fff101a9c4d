-- ===== src/Cartridge/Game/Rounds/Over.antt =====
-- The round of `collisionThread`, and the end of the game.
use flitos.Base.{
  ℕ, ◌≡◌, ◌≢◌, ◌↔◌, ◌⊎◌, inl, inr, refl, ap, sym, ◌∙◌, true, false, Bool-cases, ne→==,
  if◌then◌else◌, List, [], ◌∷◌, ℤ, pos, ◌≤ℤ◌, signed32, some, ok,
}
use flitos.Cartridge.Video.{Request}
use flitos.Cartridge.Game.{Pillar, calculate_collision, show_gamer_over_sprite}
use flitos.Cartridge.Game.Hits.{SumsFit, OnScreen, CommonPoint, calculate_collision-exact}
use flitos.Cartridge.Game.Rounds.{World, Round, collide, collision_round}

-- The bird leaves the screen or has a point in common with one of the pillars.
pub data Touches (x y : ℤ) : List Pillar → Type 0 where
  this :
      {p : Pillar} {ps : List Pillar} → (¬ OnScreen x y) ⊎ CommonPoint x y p → Touches x y (p ∷ ps)
  other : {p : Pillar} {ps : List Pillar} → Touches x y ps → Touches x y (p ∷ ps)

-- The pillars have heights that are not negative, and the sums that `calculateCollision` makes of
-- them and the bird are in the range of an `int`.
pub data Sized (x y : ℤ) : List Pillar → Type 0 where
  none_left : Sized x y []
  sized_and :
      {p : Pillar} {ps : List Pillar}
      → SumsFit x y p
      → pos 0 ≤ℤ p.height
      → Sized x y ps
      → Sized x y (p ∷ ps)

collide-cleared : (over : List Request) (x y : ℤ) (ps : List Pillar) → (collide over x y ps 0).0 ≡ 0
unfolding collide
collide-cleared over x y [] = refl
collide-cleared over x y (p ∷ ps) = elim (Bool-cases (calculate_collision x y p)) [
  | inl hit ↦ rw hit (collide-cleared over x y ps)
  | inr miss ↦ rw miss (collide-cleared over x y ps)
]

collide-exact :
    (over : List Request) (x y : ℤ) (ps : List Pillar) (flag : ℕ)
    → flag ≢ 0
    → Sized x y ps
    → ((collide over x y ps flag).0 ≡ 0) ↔ Touches x y ps
unfolding collide
collide-exact over x y [] flag on tall = (λ cleared. elim (on cleared) [ ], λ touch. elim touch [ ])
collide-exact over x y (p ∷ ps) flag on (sized_and fit up tall) =
    let (finds, counts) = calculate_collision-exact x y p fit up in
    elim (Bool-cases (calculate_collision x y p)) [
      | inl hit ↦ (λ _. this (finds hit), λ _. rw hit (collide-cleared over x y ps))
      | inr miss ↦
          let (forth, back) = collide-exact over x y ps flag on tall in
          let same = ap (λ b. (collide over x y ps (if b then 0 else flag)).0) miss in
          (
            λ cleared. other (forth (sym same ∙ cleared)),
            λ touch. same ∙ back (behind counts miss touch),
          )
    ]
  where
    behind :
        ((¬ OnScreen x y) ⊎ CommonPoint x y p → calculate_collision x y p ≡ true)
        → calculate_collision x y p ≡ false
        → Touches x y (p ∷ ps)
        → Touches x y ps
    behind counts miss (this t) = let hit = counts t in cc
    behind counts miss (other t) = t

-- What `collisionThread` leaves of a world.
abbrev pub Checked : World → Round → Type 0
Checked w round =
    (w' : World) × (rs : List Request) × (round ≡ ok (some (w', rs)))
    × ((w'.running_flag ≡ 0) ↔ Touches (signed32 w.bird_x) (signed32 w.bird_y) w.pillars)
    × (w'.bird_x ≡ w.bird_x)
    × (w'.bird_y ≡ w.bird_y)
    × (w'.pillars ≡ w.pillars)

-- On a tick that it has not seen, on pillars whose heights are not negative, and where the sums of
-- `calculateCollision` are in the range of an `int`, the collision thread of a running game clears `running_flag` exactly where the bird, by its signed coordinates, is not wholly on
-- the screen or touches a pillar; the bird and the pillars stay as they are.
pub collision_round-exact :
    (img_01 img_02 ticks : ℕ) (w : World)
    → w.running_flag ≢ 0
    → ticks ≢ w.collision_last
    → Sized (signed32 w.bird_x) (signed32 w.bird_y) w.pillars
    → Checked w (collision_round img_01 img_02 ticks w)
unfolding collision_round
collision_round-exact img_01 img_02 ticks w on later tall =
    let r =
      collide (show_gamer_over_sprite img_01 img_02) (signed32 w.bird_x) (signed32 w.bird_y)
        w.pillars w.running_flag in
    (
      record w { global = ticks; running_flag = r.0; collision_last = ticks },
      r.1,
      rw (ne→== _ _ on, ne→== _ _ later) refl,
      collide-exact _ _ _ w.pillars w.running_flag on tall,
      refl,
      refl,
      refl,
    )
