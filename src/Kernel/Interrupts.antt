-- ===== src/Kernel/Interrupts.antt =====
-- `c_interrupt_handler` of riscv-firmware/src/startup.c.
use flitos.Base.{ℕ, ◌+◌, ◌%◌, ◌^◌, Bool, false, ◌==◌, if◌then◌else◌, length, Outcome, ok, ◌>>=◌}
use flitos.Firmware.Clock.{increase_time_compare}
use flitos.Firmware.Ticks.{handle_time_interrupt}
use flitos.Kernel.Io.{Io}
use flitos.Kernel.State.{handler, Kernel, push_frame}
use flitos.Kernel.Scheduler.{in_interrupt_yield}
use flitos.Kernel.Sync.{update_tick}
use flitos.Kernel.Pipes.{put_io}

-- What the processor and the devices give to an interrupt: its cause, the register of the controller,
-- whether a video interrupt and a command interrupt are pending when they are tested, and the clock;
-- and what the memory holds that `initList` gets.
pub record Event : Type 0 where
  pub mcause : ℕ
  pub controller : ℕ
  pub video_pending : Bool
  pub command_pending : Bool
  pub time : ℕ
  pub garbage : ℕ

-- `if(flag)`
unfoldable pub timer_part : Event → Kernel → Outcome Kernel
timer_part e k =
    let compare = increase_time_compare 100 e.time k.io.time_compare in
    let count = (k.io.global + 1) % 2 ^ 32 in
    update_tick (put_io (record (k.io) { global = count; time_compare = compare }) k)

unfoldable pub count_requests : Event → Io → Io
count_requests e i = record i {
  vip_seq = if e.video_pending then (i.vip_seq + 1) % 2 ^ 32 else i.vip_seq;
  cmd_seq = if e.command_pending then (i.cmd_seq + 1) % 2 ^ 32 else i.cmd_seq;
}

-- On entry the processor has turned interrupts off. The handlers that the timer calls are code of the
-- cartridge, and do nothing to the kernel here.
unfoldable pub interrupt : Event → Kernel → Outcome Kernel
interrupt e k = do
  let k₁ = record k { nest_critical = (k.nest_critical + 1) % 2 ^ 32; mie = false }
  r ← handle_time_interrupt e.garbage e.mcause k.io.call_back_cnt k.io.handlers
  let cnt = (k.io.call_back_cnt + length (r.1)) % 2 ^ 32
  let data_now = record (k.io) {
    handlers = r.2;
    call_back_cnt = cnt;
    controller_status = e.controller;
  }
  let k₂ = put_io data_now k₁
  k₃ ← if r.0 == 0 then ok k₂ else timer_part e k₂
  in_interrupt_yield (push_frame handler (put_io (count_requests e k₃.io) k₃))
