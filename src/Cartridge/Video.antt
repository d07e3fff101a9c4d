-- ===== src/Cartridge/Video.antt =====
-- cartridge_baseline/src/video_api.c: what the cartridge asks the firmware to write. A function of the
-- file is the request that it makes; unsigned integers are 32 bits, and `y` of a sprite 16.
pub mod Fields
pub mod Slots
use flitos.Base.{ℕ, ◌+◌, ◌-◌, ◌*◌, ◌%◌, ◌^◌, Bool, ltb, if◌then◌else◌, List, [], ◌∷◌}

-- `writeTarget(handle, value)` and `writeTargetMem(handle, addr, len)`
pub data Request : Type 0 where
  word : ℕ → ℕ → Request
  block : ℕ → ℕ → ℕ → Request

-- `a - b` of unsigned integers
abbrev pub minus32 : ℕ → ℕ → ℕ
minus32 a b = (a + 2 ^ 32 - b) % 2 ^ 32

unfoldable pub large_sprite_control : ℕ → ℕ → ℕ → ℕ → ℕ → ℕ
large_sprite_control h w x y palette =
    let h' = minus32 h 33 % 2 ^ 5 in
    let w' = minus32 w 33 % 2 ^ 5 in
    let y' = (y + 64) % 2 ^ 9 in
    let x' = (x + 64) % 2 ^ 10 in
    (h' * 2 ^ 26 + w' * 2 ^ 21 + y' * 2 ^ 12 + x' * 2 ^ 2 + palette % 2 ^ 2) % 2 ^ 32

unfoldable pub set_large_sprite_control : ℕ → ℕ → ℕ → ℕ → ℕ → ℕ → Request
set_large_sprite_control idx h w x y palette =
    word ((0xFF114 + idx * 4) % 2 ^ 32) (large_sprite_control h w x y palette)

unfoldable pub small_sprite_control : ℕ → ℕ → ℕ → ℕ → ℕ → ℕ → ℕ
small_sprite_control z h w x y palette =
    let h' = minus32 h 1 % 2 ^ 4 in
    let w' = minus32 w 1 % 2 ^ 4 in
    let y' = (y + 16) % 2 ^ 9 in
    let x' = (x + 16) % 2 ^ 10 in
    ((z % 2 ^ 3) * 2 ^ 29 + h' * 2 ^ 25 + w' * 2 ^ 21 + y' * 2 ^ 12 + x' * 2 ^ 2 + palette % 2 ^ 2)
    % 2 ^ 32

unfoldable pub set_small_sprite_control : ℕ → ℕ → ℕ → ℕ → ℕ → ℕ → ℕ → Request
set_small_sprite_control idx z h w x y palette =
    word ((0xFF214 + idx * 4) % 2 ^ 32) (small_sprite_control z h w x y palette)

unfoldable pub background_control : ℕ → ℕ → ℕ → ℕ → ℕ
background_control x y z palette =
    ((z % 2 ^ 3) * 2 ^ 22
      + (y + 288) % 2 ^ 10 * 2 ^ 12
      + (x + 512) % 2 ^ 10 * 2 ^ 2
      + palette % 2 ^ 2)
    % 2 ^ 32

unfoldable pub set_background_control : ℕ → ℕ → ℕ → ℕ → ℕ → Request
set_background_control idx x y z palette =
    word ((0xFF100 + idx * 4) % 2 ^ 32) (background_control x y z palette)

-- `writeIndexedTarget`: its result, -1 or 0, and the requests.
unfoldable pub write_indexed_target : ℕ → ℕ → ℕ → ℕ → ℕ → ℕ × List Request
write_indexed_target offset mem_size idx addr mem_len =
    if ltb mem_size mem_len
    then (2 ^ 32 - 1, [])
    else (0, block ((offset + idx * mem_size) % 2 ^ 32) addr mem_len ∷ [])

unfoldable pub wrap_call : ℕ → ℕ → ℕ → Request
wrap_call handle addr mem_len = block handle addr mem_len

unfoldable pub init_background_palette : ℕ → ℕ → ℕ → ℕ × List Request
init_background_palette idx addr mem_len = write_indexed_target 0xFC000 0x400 idx addr mem_len

unfoldable pub init_sprite_palette : ℕ → ℕ → ℕ → ℕ × List Request
init_sprite_palette idx addr mem_len = write_indexed_target 0xFD000 0x400 idx addr mem_len

-- `data` is the address of a zeroed buffer on the stack.
unfoldable pub init_transparent_sprite_palette : ℕ → ℕ → ℕ × List Request
init_transparent_sprite_palette data_addr idx =
    write_indexed_target 0xFD000 0x400 idx data_addr 0x400

unfoldable pub set_background_data_image : ℕ → ℕ → ℕ × List Request
set_background_data_image idx addr = write_indexed_target 0 0x24000 idx addr (288 * 512)

unfoldable pub set_large_sprite_data_image : ℕ → ℕ → ℕ × List Request
set_large_sprite_data_image idx addr = write_indexed_target 0xB4000 0x1000 idx addr (64 * 64)

unfoldable pub set_small_sprite_data_image : ℕ → ℕ → ℕ × List Request
set_small_sprite_data_image idx addr = write_indexed_target 0xF4000 0x100 idx addr (16 * 16)

unfoldable pub set_display_mode : ℕ → Request
set_display_mode mode = word 0xFF414 (mode % 2)

-- `linePrintf`, behind `npf_vsnprintf`, which filled `buff` and returned `n`.
unfoldable pub line_print : ℕ → ℕ → ℕ → ℕ × List Request
line_print line_idx buff n =
    write_indexed_target 0xFE800 0x40 line_idx buff (if ltb 0x40 n then 0x40 else n)
