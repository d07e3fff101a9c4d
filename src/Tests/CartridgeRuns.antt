-- ===== src/Tests/CartridgeRuns.antt =====
-- The cartridge's video requests and its game at small inputs.
use flitos.Base.{
  ℕ, ◌+◌, ◌*◌, ◌%◌, ◌≡◌, refl, arith, ◌↔◌, ◌⊎◌, [], ◌∷◌, pos, negsuc, ◌+ℤ◌, signed32, ◌-ℤ◌, ok,
  true,
}
use flitos.Firmware.Memory.{load_word, write_target}
use flitos.Firmware.Memory.Copies.{Copied, load_word-write_target}
use flitos.Cartridge.Video.{set_large_sprite_data_image}
use flitos.Cartridge.Video.Slots.{serve_all, set_large_sprite_data_image-Copied}
use flitos.Cartridge.Game.{Block, Pillar, Images, calculate_collision, move_pillar, move_blocks}
use flitos.Cartridge.Game.Hits.{SumsFit, OnScreen, CommonPoint, calculate_collision-exact}
use flitos.Cartridge.Game.Moves.{At, none_left, block_at, move_times, move_times-returns}
use flitos.Cartridge.Game.Rounds.{World, collision_round, gravity_round, move_round, move_all}
use flitos.Cartridge.Game.Rounds.Reached.{
  Every, nothing, also, Standing, fell, scrolled, Reach, here, step, Reach-Standing,
}
use flitos.Cartridge.Game.Rounds.Over.{Sized, sized_and, Checked, collision_round-exact}

abbrev memory : ℕ → ℕ
memory a = a % 256

load_word-write_target_example :
    load_word (0xFF414 + 0x50000000) ((write_target 0xFF414 0x12345678 memory).1) ≡ 0x12345678
load_word-write_target_example = load_word-write_target 0xFF414 0x12345678 memory (omega arith)

-- A byte of the image of the second sprite
set_large_sprite_data_image-Copied_example :
    Copied
      (0x500B4000 + 1 * 0x1000)
      0x2000
      0x1000
      memory
      (serve_all ((set_large_sprite_data_image 1 0x2000).1) memory)
      0x500B5003
set_large_sprite_data_image-Copied_example =
    set_large_sprite_data_image-Copied 1 0x2000 memory 0x500B5003 (omega arith) (omega arith)

abbrev block : Block
block = record { x = negsuc 61; y = pos 189; height = pos 64; control_index = 5 }

abbrev pillar : Pillar
pillar = record {
  x = negsuc 61;
  y = pos 189;
  height = pos 64;
  block_number = 1;
  blocks = block ∷ block ∷ block ∷ [];
}

pillar-SumsFit : SumsFit (pos 30) (pos 170) pillar
unfolding ◌+ℤ◌
pillar-SumsFit = record {
  right = (omega arith, omega arith);
  bottom = (omega arith, omega arith);
  pillar_right = (omega arith, omega arith);
  pillar_bottom = (omega arith, omega arith);
}

calculate_collision-exact_example :
    (calculate_collision (pos 30) (pos 170) pillar ≡ true)
    ↔ ((¬ OnScreen (pos 30) (pos 170)) ⊎ CommonPoint (pos 30) (pos 170) pillar)
calculate_collision-exact_example =
    calculate_collision-exact (pos 30) (pos 170) pillar pillar-SumsFit (omega arith)

pillar-At : At (pos 2 -ℤ pos 64) 1 (block ∷ block ∷ block ∷ [])
unfolding ◌-ℤ◌
pillar-At = block_at refl none_left

-- The second round takes the pillar over the left border.
move_times-returns_example :
    (p : Pillar) × (move_times 2 pillar ≡ ok p) × At (pos 512) p.block_number p.blocks
move_times-returns_example = move_times-returns 1 2 pillar (omega arith) (omega arith) pillar-At

abbrev images : Images
images = record { head_up = 0x1000; head_down = 0x2000; body_up = 0x3000; body_down = 0x4000 }

abbrev start : World
start = record {
  running_flag = 1;
  global = 42;
  controller_status = 0;
  bird_x = 30;
  bird_y = 80;
  pillars = pillar ∷ [];
  graphics_last = 0;
  gravity_last = 0;
  collision_last = 0;
}

abbrev fallen : World
fallen = record start { bird_y = 83; gravity_last = 3 }

abbrev moved_on : World
moved_on = record fallen {
  pillars =
      record pillar { x = negsuc 63; blocks = record block { x = negsuc 63 } ∷ block ∷ block ∷ [] }
      ∷ [];
}

run : Reach start moved_on
unfolding gravity_round move_round move_all move_pillar move_blocks ◌-ℤ◌
run = step (fell 3 refl) (step (scrolled refl) here)

standing : Standing pillar
standing = record {
  at = negsuc 61;
  from_left = omega arith;
  to_right = omega arith;
  together = block_at refl none_left;
  tall = omega arith;
}

Reach-Standing_example : Every Standing moved_on.pillars
Reach-Standing_example = Reach-Standing start moved_on (also standing nothing) run

start-SumsFit : SumsFit (signed32 start.bird_x) (signed32 start.bird_y) pillar
unfolding ◌+ℤ◌
start-SumsFit = record {
  right = (omega arith, omega arith);
  bottom = (omega arith, omega arith);
  pillar_right = (omega arith, omega arith);
  pillar_bottom = (omega arith, omega arith);
}

collision_round-exact_example : Checked start (collision_round 0x5000 0x6000 1 start)
collision_round-exact_example =
    collision_round-exact 0x5000 0x6000 1 start (omega arith) (omega arith)
      (sized_and start-SumsFit (omega arith) Sized.none_left)
