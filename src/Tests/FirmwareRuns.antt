-- ===== src/Tests/FirmwareRuns.antt =====
-- The firmware's timer at small inputs.
use flitos.Base.{
  inl, ltb, leb, ◌&&◌, if◌then◌else◌, Returns, ℕ, List, length, get_or, ◌+◌, ◌-◌, ◌%◌, ◌^◌, ◌≤◌,
  ◌<◌, ◌≡◌, refl, arith, [], ◌∷◌, ok, ◌>>=◌,
}
use flitos.Firmware.Clock.{
  machine_time, machine_time-between, increase_time_compare, increase_time_compare-ahead,
}
use flitos.Firmware.Start.{Sections, Started, init, init-Loaded}
use flitos.Firmware.Ticks.{register_all, handle_time_interrupt, handle_time_interrupt-calls}
use flitos.Firmware.Handlers.{
  null, nodes, register_handler, deregister_handler, registered, deregister-register,
}

-- The low half turns over between the first read and the second.
machine_time-between_example :
    (2 ^ 32 - 1 ≤ machine_time 0 0 1 2) × (machine_time 0 0 1 2 ≤ 2 ^ 32 + 2)
machine_time-between_example =
    machine_time-between (2 ^ 32 - 1) (2 ^ 32) (2 ^ 32 + 1) (2 ^ 32 + 2) (omega arith) (omega arith)
      (omega arith) (omega arith)

increase_time_compare-ahead_example :
    (1234 < increase_time_compare 100 1234 1001)
    × (increase_time_compare 100 1234 1001 ≤ 1334)
    × ((increase_time_compare 100 1234 1001 - 1001) % 100 ≡ 0)
increase_time_compare-ahead_example =
    increase_time_compare-ahead 100 1234 1001 (omega arith) (omega arith) (omega arith)

deregister-register_example :
    (register_handler 0 (nodes 0 (7 ∷ 8 ∷ [])) 9 >>= λ l. deregister_handler l 9)
    ≡ ok (nodes 0 (7 ∷ 8 ∷ []))
unfolding registered
deregister-register_example = deregister-register 0 0 9 (7 ∷ 8 ∷ []) refl λ e. omega arith

handle_time_interrupt-calls_example :
    (calls : List (ℕ × ℕ)) × ((register_all 0 (7 ∷ 8 ∷ []) null
        >>= handle_time_interrupt 0 (2 ^ 31 + 7) 40)
      ≡ ok (1, calls, nodes 0 (7 ∷ 8 ∷ [])))
    × (length calls ≡ 2)
    × (get_or calls 1 (0, 0) ≡ (8, 41))
handle_time_interrupt-calls_example =
    handle_time_interrupt-calls 0 40 (7 ∷ 8 ∷ []) 1 (omega arith) (omega arith)

-- Sixteen bytes of data at 0x200, with their values at 0x100, and a bss of eight bytes behind
abbrev sections : Sections
sections = record {
  erodata = 0x100;
  data_start = 0x200;
  edata = 0x208;
  sdata = 0x208;
  esdata = 0x210;
  bss = 0x210;
  ebss = 0x218;
}

abbrev rom : ℕ → ℕ
rom a = a % 256

init-Loaded_example :
    Returns
      (λ (r : Started).
        (a : ℕ)
        → r.memory a ≡ (
            if leb 0x210 a && ltb a (0x210 + (0x218 - 0x210))
            then 0
            else (if leb 0x200 a && ltb a (0x200 + (0x210 - 0x200))
                then rom (0x100 + (a - 0x200))
                else rom a)))
      (init sections rom)
init-Loaded_example = init-Loaded sections rom (omega arith) (inl (omega arith))
