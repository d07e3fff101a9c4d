-- ===== src/Firmware/Memory.antt =====
-- riscv-firmware/src/system_calls.c: the writes to the video memory. Memory is a byte for each address
-- of 32 bits.
pub mod Copies
use flitos.Base.{ℕ, zero, suc, ◌+◌, ◌*◌, ◌/◌, ◌%◌, ◌^◌, ◌==◌, if◌then◌else◌}

abbrev pub Bytes : Type 0
Bytes = ℕ → ℕ

abbrev pub store : ℕ → ℕ → Bytes → Bytes
store a v m = λ b. if b == a then v else m b

unfoldable pub reg_addr_from_mem_handle : ℕ → ℕ
reg_addr_from_mem_handle handle = (handle + 0x50000000) % 2 ^ 32

-- It accepts everything.
unfoldable pub mem_length_check : ℕ → ℕ → ℕ
mem_length_check handle len = 0

-- `for(i = 0; i < mem_len; i++) addr[i] = source[i];`, for `k` rounds from `i`
unfoldable pub copy_bytes : ℕ → ℕ → ℕ → ℕ → Bytes → Bytes
copy_bytes zero i dst src m = m
copy_bytes (suc k) i dst src m =
    copy_bytes k (i + 1) dst src (store ((dst + i) % 2 ^ 32) (m ((src + i) % 2 ^ 32)) m)

unfoldable pub write_target_mem : ℕ → ℕ → ℕ → Bytes → ℕ × Bytes
write_target_mem handle source len m =
    let result = mem_length_check handle len in
    if result == 0
    then (0, copy_bytes len 0 (reg_addr_from_mem_handle handle) source m)
    else (result, m)

-- `*addr = value`, the lowest byte first
unfoldable pub store_word : ℕ → ℕ → Bytes → Bytes
store_word a v m = store ((a + 3) % 2 ^ 32) (v / 2 ^ 24 % 2 ^ 8) (
    store ((a + 2) % 2 ^ 32) (v / 2 ^ 16 % 2 ^ 8)
      (store ((a + 1) % 2 ^ 32) (v / 2 ^ 8 % 2 ^ 8) (store (a % 2 ^ 32) (v % 2 ^ 8) m)))

unfoldable pub load_word : ℕ → Bytes → ℕ
load_word a m =
    m (a % 2 ^ 32)
    + m ((a + 1) % 2 ^ 32) * 2 ^ 8
    + m ((a + 2) % 2 ^ 32) * 2 ^ 16
    + m ((a + 3) % 2 ^ 32) * 2 ^ 24

unfoldable pub write_target : ℕ → ℕ → Bytes → ℕ × Bytes
write_target handle value m =
    let result = mem_length_check handle 4 in
    if result == 0 then (0, store_word (reg_addr_from_mem_handle handle) value m) else (result, m)
