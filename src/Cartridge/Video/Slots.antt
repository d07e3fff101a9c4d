-- ===== src/Cartridge/Video/Slots.antt =====
-- Where the images of the video interface go: through the firmware's copy into the device's memory.
use flitos.Base.{ℕ, ◌+◌, ◌-◌, ◌*◌, ◌%◌, ◌^◌, ◌≤◌, ◌<◌, ◌≡◌, refl, arith, lt→ltb, List, [], ◌∷◌, inl}
use flitos.Cartridge.Video.{Request, word, block, write_indexed_target, set_large_sprite_data_image}
use flitos.Firmware.Memory.{Bytes, write_target_mem, write_target}
use flitos.Firmware.Memory.Copies.{Copied, write_target_mem-Copied}

-- The firmware serves a request.
pub serve : Request → Bytes → Bytes
serve (word handle value) m = (write_target handle value m).1
serve (block handle addr len) m = (write_target_mem handle addr len m).1

pub serve_all : List Request → Bytes → Bytes
serve_all [] m = m
serve_all (r ∷ rs) m = serve_all rs (serve r m)

-- A large sprite's image with an index below 64, from memory below the video device, is copied to the
-- sprite's 4096 bytes at 0x500B4000 + index * 0x1000; no other byte changes, so that the images of
-- other sprites stay.
pub set_large_sprite_data_image-Copied :
    (idx addr : ℕ) (m : Bytes) (a : ℕ)
    → idx < 64
    → addr + 0x1000 ≤ 0x50000000
    → Copied
        (0x500B4000 + idx * 0x1000)
        addr
        0x1000
        m
        (serve_all ((set_large_sprite_data_image idx addr).1) m)
        a
unfolding set_large_sprite_data_image write_indexed_target serve_all serve
set_large_sprite_data_image-Copied idx addr m a small low =
    let plain : (0xB4000 + idx * 0x1000) % 2 ^ 32 ≡ 0xB4000 + idx * 0x1000 = omega arith in
    let same : 0xB4000 + idx * 0x1000 + 0x50000000 ≡ 0x500B4000 + idx * 0x1000 = omega arith in
    rw (plain, ← same)
      (write_target_mem-Copied (0xB4000 + idx * 0x1000) addr 0x1000 m a (omega arith) (omega arith)
        (inl (omega arith)))

-- A block that is longer than its slot is refused with -1, and nothing is written.
pub write_indexed_target-refuses :
    (offset mem_size idx addr mem_len : ℕ) (m : Bytes)
    → mem_size < mem_len
    → ((write_indexed_target offset mem_size idx addr mem_len).0 ≡ 2 ^ 32 - 1)
      × (serve_all ((write_indexed_target offset mem_size idx addr mem_len).1) m ≡ m)
unfolding write_indexed_target serve_all
write_indexed_target-refuses offset mem_size idx addr mem_len m long =
    rw (lt→ltb mem_size mem_len long) (refl, refl)
