-- ===== src/Cartridge/Game/Rounds.antt =====
-- riscv-cart/src/main.c and the threads of app.c: a round of each thread's loop, from the test of
-- `running_flag` to `threadYield`. No other thread comes between the parts of one round. What the kernel
-- returned (ticks, controller status, counts of interrupts) and what `npf_vsnprintf` made of a line
-- (an address and a length) are arguments.
pub mod Reached
pub mod Over
use flitos.Base.{
  ℕ, zero, suc, ◌+◌, ◌-◌, ◌*◌, ◌/◌, ◌%◌, ◌^◌, Bool, true, false, ltb, leb, ◌==◌, not, if◌then◌else◌,
  List, [], ◌∷◌, ◌++◌, ℤ, pos, negsuc, unsigned32, signed32, Option, none, some, Outcome, ok, fault,
  ◌>>=◌,
}
use flitos.Cartridge.Video.{
  Request, set_large_sprite_control, set_large_sprite_data_image, set_background_control,
  set_background_data_image, init_background_palette, init_sprite_palette,
  init_transparent_sprite_palette, set_display_mode, line_print,
}
use flitos.Cartridge.Game.{
  Block, Pillar, Images, create_bottoms, create_tops, create_a_pillar, move_pillar,
  calculate_collision, show_gamer_over_sprite,
}

-- `struct position` (less its mutex), the globals, and each thread's `last_time`
pub record World : Type 0 where
  pub running_flag : ℕ
  pub global : ℕ
  pub controller_status : ℕ
  pub bird_x : ℕ
  pub bird_y : ℕ
  pub pillars : List Pillar
  pub graphics_last : ℕ
  pub gravity_last : ℕ
  pub collision_last : ℕ

-- `initVideoSetting`: the palette, the background and the three images of the bird are addresses.
unfoldable pub init_video_setting : ℕ → ℕ → ℕ → ℕ → ℕ → ℕ → List Request
init_video_setting palette zeroed background img_0 img_1 img_2 =
    set_display_mode 1 ∷ (init_background_palette 0 palette 888).1
    ++ (init_sprite_palette 1 palette 888).1
    ++ (init_transparent_sprite_palette zeroed 0).1
    ++ set_background_control 0 0 0 0 0
      ∷ set_large_sprite_control 0 64 64 30 80 1
      ∷ set_large_sprite_control 1 64 64 0 0 0
      ∷ set_large_sprite_control 2 64 64 0 0 0
      ∷ (set_background_data_image 0 background).1
    ++ (set_large_sprite_data_image 0 img_0).1
    ++ (set_large_sprite_data_image 1 img_1).1
    ++ (set_large_sprite_data_image 2 img_2).1

-- `linePrintf(line, format, value)`
abbrev print_value : (ℕ → ℕ → ℕ × ℕ) → ℕ → ℕ → List Request
print_value text line v = (line_print line (text line v).0 (text line v).1).1

-- `i == t % 3`, of a signed `t` by its pattern
unfoldable pub is_frame : ℕ → ℕ → ℕ
is_frame i t =
    let same =
      if ltb t (2 ^ 31) then i == t % 3 else (if (2 ^ 32 - t) % 3 == 0 then i == 0 else false) in
    if same then 1 else 0

-- The loop on the bird's three images
abbrev show_bird : ℕ → ℕ → ℕ → List Request
show_bird t x y =
    set_large_sprite_control 0 64 64 x (y % 2 ^ 16) (is_frame 0 t)
    ∷ set_large_sprite_control 1 64 64 x (y % 2 ^ 16) (is_frame 1 t)
    ∷ set_large_sprite_control 2 64 64 x (y % 2 ^ 16) (is_frame 2 t)
    ∷ []

-- `status & 2 ^ k`
abbrev pressed : ℕ → ℕ → Bool
pressed k status = status / 2 ^ k % 2 == 1

-- `sprite_inc_x` and `sprite_inc_y`, of a controller status
unfoldable pub sprite_inc_x : ℕ → ℤ
sprite_inc_x status =
    if pressed 3 status then pos 5 else (if pressed 0 status then negsuc 4 else pos 0)

unfoldable pub sprite_inc_y : ℕ → ℤ
sprite_inc_y status =
    if pressed 2 status then pos 5 else (if pressed 1 status then negsuc 4 else pos 0)

-- A round is `ok none` where the thread leaves its loop.
abbrev pub Round : Type 0
Round = Outcome (Option (World × List Request))

abbrev while_running : World → Round → Round
while_running w body = if w.running_flag == 0 then ok none else body

unfoldable pub graphics_round : (ℕ → ℕ → ℕ × ℕ) → ℕ → ℕ → ℕ → World → Round
graphics_round text ticks seq status w =
    let x = (w.bird_x + unsigned32 (sprite_inc_x status)) % 2 ^ 32 in
    let y = (w.bird_y + unsigned32 (sprite_inc_y status)) % 2 ^ 32 in
    let shown = if status == 0 then [] else print_value text 5 status in
    let went = record w {
      global = ticks;
      controller_status = status;
      bird_x = x;
      bird_y = y;
      graphics_last = ticks;
    } in
    while_running w (
      if ticks == w.graphics_last
      then ok (some (record w { global = ticks }, []))
      else ok (some (went, print_value text 0 seq ++ shown ++ show_bird ticks x y)))

unfoldable pub gravity_round : ℕ → World → Round
gravity_round ticks w =
    let y = (w.bird_y + 3) % 2 ^ 32 in
    while_running w (
      if ltb ((ticks + 2 ^ 32 - w.gravity_last) % 2 ^ 32) 3
      then ok (some (w, []))
      else ok (some (record w { bird_y = y; gravity_last = ticks }, show_bird ticks w.bird_x y)))

-- `for (j = 0; j < 6; j++)` of `collisionThread`: the flag and the requests
unfoldable pub collide : List Request → ℤ → ℤ → List Pillar → ℕ → ℕ × List Request
collide over x y [] flag = (flag, [])
collide over x y (p ∷ ps) flag =
    let hit = calculate_collision x y p in
    let rest = collide over x y ps (if hit then 0 else flag) in
    (rest.0, if hit then over ++ rest.1 else rest.1)

unfoldable pub collision_round : ℕ → ℕ → ℕ → World → Round
collision_round img_01 img_02 ticks w =
    let r =
      collide (show_gamer_over_sprite img_01 img_02) (signed32 w.bird_x) (signed32 w.bird_y)
        w.pillars w.running_flag in
    while_running w (
      if ticks == w.collision_last
      then ok (some (record w { global = ticks }, []))
      else ok (some (record w { global = ticks; running_flag = r.0; collision_last = ticks }, r.1)))

-- The loop of `movePillarThread` on the six pillars
unfoldable pub move_all : List Pillar → Outcome (List Pillar × List Request)
move_all [] = ok ([], [])
move_all (p ∷ ps) = do
  (p', rs) ← move_pillar p (pos 2)
  (ps', rs') ← move_all ps
  ok (p' ∷ ps', rs ++ rs')

unfoldable pub move_round : World → Round
move_round w =
    let moved = move_all w.pillars >>= λ r. ok (some (record w { pillars = r.0 }, r.1)) in
    while_running w moved

-- `createAPillar` on the pillars from the `i`th, with its sprites from `index`
unfoldable pub create_all : Images → ℕ → ℕ → List Pillar → Outcome (List Pillar × List Request)
create_all im i index [] = ok ([], [])
create_all im i index (p ∷ ps) = do
  (next, p', rs) ← create_a_pillar im p index (ltb i 3)
  (ps', rs') ← create_all im (i + 1) next ps
  ok (p' ∷ ps', rs ++ rs')

-- What `movePillarThread` does before its loop; `junk_block` and `junk` are what the stack held.
unfoldable pub make_pillars : Images → Block → Pillar → Outcome (List Pillar × List Request)
make_pillars im junk_block junk = do
  bottoms ← create_bottoms junk_block junk
  tops ← create_tops junk_block junk
  create_all im 0 5 (bottoms ++ tops)

-- `threadCommandButtonMonitor`
unfoldable pub command_round : (ℕ → ℕ → ℕ × ℕ) → ℕ → List Request
command_round text seq =
    print_value text 1 seq ++ set_display_mode (if seq % 2 == 0 then seq + 1 else seq - 1) ∷ []

-- `idleThread`
unfoldable pub idle_round : (ℕ → ℕ → ℕ × ℕ) → ℕ → ℕ × List Request
idle_round text cnt = ((cnt + 1) % 2 ^ 32, print_value text 7 cnt)
