-- ===== src/Kernel/Interrupted.antt =====
-- What an interrupt does, as far as the invariant and the pipes' bytes go.
use flitos.Base.{
  ℕ, ◌+◌, ◌%◌, ◌^◌, ◌≡◌, refl, sym, ◌∙◌, ap, subst, false, arith, ◌==◌, if◌then◌else◌, length,
  index, inl, inr, Bool-cases, ok, Returns, returns, Returns-bind, Returns-mono,
}
use flitos.Firmware.Handlers.{Live}
use flitos.Firmware.Ticks.{handle_time_interrupt-Live}
use flitos.Kernel.Io.{Io}
use flitos.Kernel.State.{Kernel, handler, push_frame}
use flitos.Kernel.Sync.{update_tick}
use flitos.Kernel.Pipes.{no_pipe, put_io}
use flitos.Kernel.Interrupts.{Event, timer_part, count_requests, interrupt}
use flitos.Kernel.Invariant.Turn.{Turn-behind}
use flitos.Kernel.Invariant.Sound.{Sound, After, Keeps-refl, Keeps-trans}
use flitos.Kernel.Invariant.Switch.{push_frame-After}
use flitos.Kernel.Invariant.Locks.{settle}
use flitos.Kernel.Invariant.Notify.{notify_all-After}
use flitos.Kernel.Invariant.Block.{Single}
use flitos.Kernel.Invariant.Transfer.{put_io-Sound}
use flitos.Kernel.Invariant.Tick.{in_interrupt_yield-Moves}
use flitos.Kernel.Ready.{Serves}

-- The tick, behind a change of the data that leaves pipes and handlers alone.
abbrev Ticked : Kernel → Kernel → Type 0
Ticked k l =
    (i : Io) × (i.pipes ≡ k.io.pipes) × (i.handlers ≡ k.io.handlers) × After 3 0 (put_io i k) l

pub update_tick-After : (k : Kernel) → Sound 3 0 k → Returns (After 3 0 k) (update_tick k)
unfolding update_tick
update_tick-After k s =
    let i : Kernel = record k { systick = (k.systick + 1) % 2 ^ 32 } in
    let (inner, before) = settle 3 0 k i s refl refl refl refl refl (λ t. refl) in
    Returns-mono (notify_all-After 3 0 i.cond_for_sleep i inner (omega arith) (omega arith))
      λ l (outer, keeps). (outer, Keeps-trans before keeps)

pub tick-Ticked :
    (e : Event) (flag : ℕ) (k : Kernel)
    → Sound 3 0 k
    → Returns (Ticked k) (if flag == 0 then ok k else timer_part e k)
unfolding timer_part
tick-Ticked e flag k s = elim (Bool-cases (flag == 0)) [
  | inl other ↦ rw other (returns (k.io, refl, refl, (s, Keeps-refl k)))
  | inr timer ↦ rw timer (
      Returns-mono (update_tick-After (put_io _ k) (put_io-Sound 3 0 _ k s))
        λ l done. (_, refl, refl, done))
]

-- The interrupt wakes the sleepers and switches, and no assertion fails.
pub interrupt-Serves :
    (e : Event) (k : Kernel)
    → Sound 3 0 k
    → Single k
    → Live k.io.handlers
    → Returns (Serves (λ t. 0) (λ p. false) k) (interrupt e k)
unfolding interrupt count_requests
interrupt-Serves e k s single live =
    let k₁ : Kernel = record k { nest_critical = (k.nest_critical + 1) % 2 ^ 32; mie = false } in
    let (first, before) = settle 3 0 k k₁ s refl refl refl refl refl (λ t. refl) in
    Returns-bind
      (handle_time_interrupt-Live e.garbage e.mcause k.io.call_back_cnt k.io.handlers live)
      λ r (list, flag).
        let i : Io = record (k.io) {
          handlers = r.2;
          call_back_cnt = (k.io.call_back_cnt + length (r.1)) % 2 ^ 32;
          controller_status = e.controller;
        } in
        Returns-bind (tick-Ticked e (r.0) (put_io i k₁) (put_io-Sound 3 0 i k₁ first))
          λ k₃ (j, pipes, handlers, (inner, keeps)).
            let k₄ : Kernel = put_io (count_requests e k₃.io) k₃ in
            let (pushed, same) =
              push_frame-After 3 0 handler k₄ (put_io-Sound 3 0 _ k₃ inner) (omega arith) in
            Returns-mono
              (in_interrupt_yield-Moves (push_frame handler k₄) pushed
                (λ t. omega (arith, keeps.census_same t, single t)))
              λ l moves. record {
                sound = moves.sound;
                counts = λ t. omega (arith, moves.census_same t, keeps.census_same t);
                bytes_same = λ p h.
                    ap (λ (d : Io). (index no_pipe p d.pipes).bytes) moves.io_same
                    ∙ ap (λ (d : Io). (index no_pipe p d.pipes).bytes) keeps.io_same
                    ∙ ap (λ t. (index no_pipe p t).bytes) pipes;
                turn = Turn-behind _ _ _ _ _ _ keeps.running_same keeps.joins moves.turn;
                live = λ h.
                    subst (λ (d : Io). Live d.handlers) (sym moves.io_same)
                      (subst (λ (d : Io). Live d.handlers) (sym keeps.io_same)
                        (subst (λ hs. Live hs) (sym handlers) list));
              }
