-- ===== src/Cartridge/Video/Fields.antt =====
-- The control words, read back the way docs/video.md describes them.
use flitos.Base.{ℕ, ◌+◌, ◌/◌, ◌%◌, ◌^◌, ◌≤◌, ◌<◌, ◌≡◌, refl, arith}
use flitos.Cartridge.Video.{large_sprite_control, small_sprite_control}

-- The fields of a sprite's control word, with the offsets of the document taken off. `x` and `y` are
-- the places on the screen plus the margin, so that no integer is negative.
pub record Sprite : Type 0 where
  pub plane : ℕ
  pub height : ℕ
  pub width : ℕ
  pub y_margin : ℕ
  pub x_margin : ℕ
  pub palette : ℕ

abbrev pub bits : ℕ → ℕ → ℕ → ℕ
bits from width v = v / 2 ^ from % 2 ^ width

-- A large sprite is always on plane 4.
pub read_large : ℕ → Sprite
read_large v = record {
  plane = 4;
  height = bits 26 5 v + 33;
  width = bits 21 5 v + 33;
  y_margin = bits 12 9 v;
  x_margin = bits 2 10 v;
  palette = bits 0 2 v;
}

pub read_small : ℕ → Sprite
read_small v = record {
  plane = bits 29 3 v;
  height = bits 25 4 v + 1;
  width = bits 21 4 v + 1;
  y_margin = bits 12 9 v;
  x_margin = bits 2 10 v;
  palette = bits 0 2 v;
}

Sprite-eq :
    (a b : Sprite)
    → a.plane ≡ b.plane
    → a.height ≡ b.height
    → a.width ≡ b.width
    → a.y_margin ≡ b.y_margin
    → a.x_margin ≡ b.x_margin
    → a.palette ≡ b.palette
    → a ≡ b
Sprite-eq a b p h w y x c = cc

-- The control word of a large sprite of a size from 33 to 64 and a palette below 4 is read back as it
-- was set, its place with the margin of 64 on 10 and 9 bits.
pub read_large-control :
    (h w x y palette : ℕ)
    → 33 ≤ h
    → h ≤ 64
    → 33 ≤ w
    → w ≤ 64
    → palette < 4
    → read_large (large_sprite_control h w x y palette) ≡ record {
      plane = 4;
      height = h;
      width = w;
      y_margin = (y + 64) % 2 ^ 9;
      x_margin = (x + 64) % 2 ^ 10;
      palette = palette;
    }
unfolding read_large large_sprite_control
read_large-control h w x y palette h1 h2 w1 w2 p =
    Sprite-eq _ _ refl (omega arith) (omega arith) (omega arith) (omega arith) (omega arith)

-- The control word of a small sprite of a size from 1 to 16, a plane below 8 and a palette below 4 is
-- read back as it was set, its place with the margin of 16 on 10 and 9 bits.
pub read_small-control :
    (z h w x y palette : ℕ)
    → z < 8
    → 1 ≤ h
    → h ≤ 16
    → 1 ≤ w
    → w ≤ 16
    → palette < 4
    → read_small (small_sprite_control z h w x y palette) ≡ record {
      plane = z;
      height = h;
      width = w;
      y_margin = (y + 16) % 2 ^ 9;
      x_margin = (x + 16) % 2 ^ 10;
      palette = palette;
    }
unfolding read_small small_sprite_control
read_small-control z h w x y palette zs h1 h2 w1 w2 p =
    Sprite-eq _ _ (omega arith) (omega arith) (omega arith) (omega arith) (omega arith)
      (omega arith)
