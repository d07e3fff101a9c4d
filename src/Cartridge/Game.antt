-- ===== src/Cartridge/Game.antt =====
-- riscv-cart/src/app.c: the pillars of the game. An `int` is an integer: the places of the pillars
-- stay between -66 and 512, and the sums of `calculateCollision`, which adds the place of the bird,
-- keep 32 bits. Fields that the code leaves unset have what the argument `junk` holds.
pub mod Pillars
pub mod Hits
pub mod Moves
pub mod Rounds
use flitos.Base.{
  ℕ, zero, suc, ◌+◌, ◌-◌, ◌*◌, ◌/◌, ◌%◌, ◌^◌, Bool, true, false, ◌&&◌, ◌||◌, ltb, leb, ◌==◌,
  if◌then◌else◌, List, [], ◌∷◌, ◌++◌, length, set, ℤ, pos, negsuc, ◌+ℤ◌, add_int, ◌-ℤ◌, ltb_ℤ,
  leb_ℤ, unsigned32, Outcome, ok, fault, hang, ◌>>=◌,
}
use flitos.Cartridge.Video.{Request, set_large_sprite_control, set_large_sprite_data_image}

-- `struct pillarBlock` and `struct pillar`, with its array of three blocks
pub record Block : Type 0 where
  pub x : ℤ
  pub y : ℤ
  pub height : ℤ
  pub control_index : ℕ

pub record Pillar : Type 0 where
  pub x : ℤ
  pub y : ℤ
  pub height : ℤ
  pub block_number : ℕ
  pub blocks : List Block

-- `countXPosition`, of an index that is not negative
unfoldable pub count_x_position : ℕ → ℕ
count_x_position i = if i == 0 then 100 else 100 + (64 + 100) * i

-- `blocks[i] = b`
unfoldable pub put_block : ℕ → Block → List Block → Outcome (List Block)
put_block i b bs = if ltb i (length bs) then ok (set bs i b) else fault

-- The loop of `createABottom`, of a height that is not negative. A fourth round writes behind the three
-- blocks, so that four rounds are enough.
unfoldable pub bottom_loop : ℕ → ℕ → ℕ → Block → ℤ → ℕ → List Block → Outcome (ℕ × List Block)
bottom_loop zero remaining idx junk x height bs = hang
bottom_loop (suc f) remaining idx junk x height bs =
    let b = record junk { x = x; y = pos (idx * 64 + 288) -ℤ pos height; height = pos 64 } in
    let rest = put_block idx b bs >>= bottom_loop f (remaining - 64) (idx + 1) junk x height in
    if ltb 0 remaining then rest else ok (idx, bs)

unfoldable pub create_a_bottom : Block → ℕ → ℕ → Pillar → Outcome Pillar
create_a_bottom junk x height p = do
  (n, bs) ← bottom_loop 4 height 0 junk (pos x) height p.blocks
  ok (record {
    x = pos x;
    y = pos 288 -ℤ pos height;
    height = pos height;
    block_number = n;
    blocks = bs;
  })

-- `for (i = 0; i < numbers; i++)` of `createATop`, for `k` rounds from `i`
unfoldable pub top_loop : ℕ → ℕ → ℕ → Block → ℤ → ℕ → List Block → Outcome (List Block)
top_loop zero i idx junk x remaining bs = ok bs
top_loop (suc k) i idx junk x remaining bs = do
  bs' ← put_block idx (record junk { x = x; y = pos (remaining + 64 * i); height = pos 64 }) bs
  top_loop k (i + 1) (idx + 1) junk x remaining bs'

unfoldable pub create_a_top : Block → ℕ → ℕ → Pillar → Outcome Pillar
create_a_top junk x height p =
    let remaining = height % 64 in
    let numbers = height / 64 in
    let first = record junk { x = pos x; y = pos remaining -ℤ pos 64; height = pos remaining } in
    if remaining == 0
    then (top_loop numbers 0 0 junk (pos x) remaining p.blocks >>= λ bs.
        ok (record {
          x = pos x;
          y = pos 0;
          height = pos height;
          block_number = numbers;
          blocks = bs;
        }))
    else (put_block 0 first p.blocks >>= top_loop numbers 0 1 junk (pos x) remaining >>= λ bs.
        ok (record {
          x = pos x;
          y = pos 0;
          height = pos height;
          block_number = numbers + 1;
          blocks = bs;
        }))

-- `createBottoms` and `createTops`: the heights are those of the source, the third index of `pillars`
-- counts on for the tops.
unfoldable pub create_row :
    (ℕ → ℕ → Pillar → Outcome Pillar) → Pillar → ℕ → List ℕ → Outcome (List Pillar)
create_row create junk i [] = ok []
create_row create junk i (h ∷ hs) = do
  p ← create (count_x_position i) h junk
  ps ← create_row create junk (i + 1) hs
  ok (p ∷ ps)

unfoldable pub create_bottoms : Block → Pillar → Outcome (List Pillar)
create_bottoms junk p = create_row (create_a_bottom junk) p 0 (99 ∷ 130 ∷ 110 ∷ [])

unfoldable pub create_tops : Block → Pillar → Outcome (List Pillar)
create_tops junk p = create_row (create_a_top junk) p 0 (104 ∷ 64 ∷ 110 ∷ [])

-- The addresses of the images.
pub record Images : Type 0 where
  pub head_up : ℕ
  pub head_down : ℕ
  pub body_up : ℕ
  pub body_down : ℕ

abbrev pub show_block : Block → ℕ → Request
show_block b idx = set_large_sprite_control idx 64 64 (unsigned32 b.x) (unsigned32 b.y % 2 ^ 16) 1

-- `createAPillar`, for `k` blocks from the `i`th, the rest of whose array is `bs`: the next index, the
-- blocks and the requests. The array `pillar_img_single` that it fills is not used.
unfoldable pub create_sprites :
    Images → Bool → ℕ → ℕ → ℕ → ℕ → List Block → Outcome (ℕ × List Block × List Request)
create_sprites im is_up number zero i index bs = ok (index, bs, [])
create_sprites im is_up number (suc k) i index [] = fault
create_sprites im is_up number (suc k) i index (b ∷ bs) = do
  let up = if i == 0 then im.head_up else im.body_up
  let down = if i + 1 == number then im.head_down else im.body_down
  let image = (set_large_sprite_data_image index (if is_up then up else down)).1
  (next, rest, rs) ← create_sprites im is_up number k (i + 1) (index + 1) bs
  ok (next, record b { control_index = index } ∷ rest, show_block b index ∷ image ++ rs)

unfoldable pub create_a_pillar : Images → Pillar → ℕ → Bool → Outcome (ℕ × Pillar × List Request)
create_a_pillar im p index is_up = do
  (next, bs, rs) ← create_sprites im is_up p.block_number p.block_number 0 index p.blocks
  ok (next, record p { blocks = bs }, rs)

-- `movePillar`, for `k` blocks, with the pillar's `x` so far
unfoldable pub move_blocks : ℕ → ℤ → ℤ → List Block → Outcome (ℤ × List Block × List Request)
move_blocks zero offset px bs = ok (px, bs, [])
move_blocks (suc k) offset px [] = fault
move_blocks (suc k) offset px (b ∷ bs) = do
  let x = b.x -ℤ offset
  let b' = record b { x = if ltb_ℤ x (negsuc 63) then pos 512 else x }
  (last, rest, rs) ← move_blocks k offset x bs
  ok (last, b' ∷ rest, show_block b' b.control_index ∷ rs)

unfoldable pub move_pillar : Pillar → ℤ → Outcome (Pillar × List Request)
move_pillar p offset = do
  (x, bs, rs) ← move_blocks p.block_number offset p.x p.blocks
  ok (record p { x = x; blocks = bs }, rs)

-- `calculateCollision` of the bird with one pillar; the sums of `int`s keep 32 bits.
unfoldable pub off_screen : ℤ → ℤ → Bool
off_screen bird_x bird_y =
    ltb_ℤ bird_x (pos 0)
    || ltb_ℤ (pos 512) (add_int bird_x (pos 34))
    || ltb_ℤ bird_y (pos 0)
    || ltb_ℤ (pos 288) (add_int bird_y (pos 24))

unfoldable pub calculate_collision : ℤ → ℤ → Pillar → Bool
calculate_collision bird_x bird_y p =
    if off_screen bird_x bird_y
    then true
    else leb_ℤ p.x (add_int bird_x (pos 34))
      && leb_ℤ bird_x (add_int p.x (pos 52))
      && leb_ℤ p.y (add_int bird_y (pos 24))
      && leb_ℤ bird_y (add_int p.y p.height)

-- `showGamerOverSprite`
unfoldable pub show_gamer_over_sprite : ℕ → ℕ → List Request
show_gamer_over_sprite img_01 img_02 =
    set_large_sprite_control 62 64 64 192 112 1
      ∷ set_large_sprite_control 63 64 64 256 112 1
      ∷ (set_large_sprite_data_image 62 img_01).1
    ++ (set_large_sprite_data_image 63 img_02).1
