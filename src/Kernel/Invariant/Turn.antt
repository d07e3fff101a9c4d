-- ===== src/Kernel/Invariant/Turn.antt =====
-- Who runs behind a piece of code, and who is ready then.
use flitos.Base.{ℕ, ◌≡◌, ◌≢◌, sym, ◌∙◌, ap, arith, List, ◌∷◌, ◌++◌}
use flitos.Kernel.State.{ThreadState, Kernel}
use flitos.Kernel.Invariant.Census.{count}
use flitos.Kernel.Invariant.Sound.{Joins, Joins-trans}
use flitos.Kernel.Invariant.Switch.{Gone, ready_tail}

-- From the thread `r` with the ready list `xs` to `q` with `ys`: the same thread runs and others joined
-- the list, or the first one of the list with those that joined runs.
pub data Turn (r : ℕ) (xs : List ℕ) (q : ℕ) (ys : List ℕ) : Type 0 where
  stays : q ≡ r → Joins xs ys → Turn r xs q ys
  hands : q ≢ r → Joins xs (q ∷ ys) → Turn r xs q ys

abbrev pub TurnOf : Kernel → Kernel → Type 0
TurnOf k l = Turn k.running k.ready_list l.running l.ready_list

pub Turn-behind :
    (r s q : ℕ) (xs ys zs : List ℕ) → s ≡ r → Joins xs ys → Turn s ys q zs → Turn r xs q zs
Turn-behind r s q xs ys zs same before (stays e j) =
    stays (e ∙ same) (Joins-trans xs ys zs before j)
Turn-behind r s q xs ys zs same before (hands ne j) =
    hands (λ e. ne (e ∙ sym same)) (Joins-trans xs ys (q ∷ zs) before j)

-- The switch takes the first ready thread.
pub Gone-Turn :
    (s : ThreadState) (k l : Kernel) → Gone s k l → count k.running k.ready_list ≡ 0 → TurnOf k l
Gone-Turn s k l gone alone =
    hands (λ same. ground (arith, ap (count k.running) gone.chosen))
      (
        ready_tail s k.running,
        ap (λ ys. l.running ∷ ys) gone.ready_now
            ∙ ap (λ xs. xs ++ ready_tail s k.running) (sym gone.chosen),
      )
