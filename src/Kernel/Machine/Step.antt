-- ===== src/Kernel/Machine/Step.antt =====
-- The machine's steps.
use flitos.Base.{ℕ, ◌≡◌, true, [], ◌∷◌, List, ok}
use flitos.Kernel.State.{Frame, Kernel, frames_of, set_frames}
use flitos.Kernel.SystemCalls.{Outside, c_system_call}
use flitos.Kernel.Interrupts.{Event, interrupt}
use flitos.Kernel.Machine.{Call, call, go_on}

-- Thread code runs while its stack of kernel frames is empty; then the firmware's own threads may
-- call, a thread of a cartridge may make a system call, or the timer may interrupt it. Otherwise the
-- topmost frame goes on.
pub data Step (k l : Kernel) : Type 0 where
  calls : (c : Call) → frames_of k k.running ≡ [] → call c k ≡ ok l → Step k l
  goes_on :
      (f : Frame) (fs : List Frame)
      → frames_of k k.running ≡ f ∷ fs
      → go_on f (set_frames fs k) ≡ ok l
      → Step k l
  serves :
      (o : Outside) (a0 a1 a2 n : ℕ)
      → frames_of k k.running ≡ []
      → c_system_call o a0 a1 a2 n k ≡ ok l
      → Step k l
  ticks : (e : Event) → frames_of k k.running ≡ [] → k.mie ≡ true → interrupt e k ≡ ok l → Step k l
