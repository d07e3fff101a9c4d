-- ===== src/Kernel/Context.antt =====
-- context_switch of os_kernel/src/context_switch.s, `ThreadControlBlock::init` with
-- `pushDummySwitchFrame`, and startFirstTask, on the registers and the words of memory. The offsets
-- are those of port_riscv.h. Stack pointers and the addresses of words are multiples of 4.
pub mod Switches
use flitos.Base.{ℕ, ◌+◌, ◌-◌, ◌*◌, ◌%◌, ◌^◌, ◌==◌, if◌then◌else◌, List, [], ◌∷◌}

-- A word for each address.
abbrev pub Words : Type 0
Words = ℕ → ℕ

pub record Cpu : Type 0 where
  pub pc : ℕ
  pub ra : ℕ
  pub sp : ℕ
  pub gp : ℕ
  pub tp : ℕ
  pub t0 : ℕ
  pub t1 : ℕ
  pub t2 : ℕ
  pub s0 : ℕ
  pub s1 : ℕ
  pub a0 : ℕ
  pub a1 : ℕ
  pub a2 : ℕ
  pub a3 : ℕ
  pub a4 : ℕ
  pub a5 : ℕ
  pub mepc : ℕ
  pub mcause : ℕ
  pub mstatus : ℕ

-- The word `i` of the context at `s`.
abbrev pub slot : ℕ → ℕ → ℕ
slot s i = (s + 4 * i) % 2 ^ 32

abbrev pub store_word_at : ℕ → ℕ → Words → Words
store_word_at a v m = λ b. if b == a then v else m b

-- Words at offsets from `s`, one after the other.
unfoldable pub store_words : ℕ → List (ℕ × ℕ) → Words → Words
store_words s [] m = m
store_words s ((i, v) ∷ ws) m = store_words s ws (store_word_at (slot s i) v m)

-- The stores of context_switch; the slot 1 stays free.
unfoldable pub context_of : Cpu → List (ℕ × ℕ)
context_of c =
    (0, c.ra)
    ∷ (2, c.gp)
    ∷ (3, c.tp)
    ∷ (4, c.t0)
    ∷ (5, c.t1)
    ∷ (6, c.t2)
    ∷ (7, c.s0)
    ∷ (8, c.s1)
    ∷ (9, c.a0)
    ∷ (10, c.a1)
    ∷ (11, c.a2)
    ∷ (12, c.a3)
    ∷ (13, c.a4)
    ∷ (14, c.a5)
    ∷ (15, c.mepc)
    ∷ (16, c.mcause)
    ∷ (17, c.mstatus)
    ∷ []

-- The loads at the end of startFirstTask and context_switch, and `ret`.
unfoldable pub load_registers : ℕ → Words → Cpu → Cpu
load_registers s m c = record c {
  pc = m (slot s 0);
  ra = m (slot s 0);
  sp = slot s 18;
  gp = m (slot s 2);
  tp = m (slot s 3);
  t0 = m (slot s 4);
  t1 = m (slot s 5);
  t2 = m (slot s 6);
  s0 = m (slot s 7);
  s1 = m (slot s 8);
  a0 = m (slot s 9);
  a1 = m (slot s 10);
  a2 = m (slot s 11);
  a3 = m (slot s 12);
  a4 = m (slot s 13);
  a5 = m (slot s 14);
}

-- `sw sp, 0(a0)` comes behind the stores of the context.
unfoldable pub saved_context : Cpu → Words → Words
saved_context c m =
    let s = (c.sp + 2 ^ 32 - 72) % 2 ^ 32 in store_word_at c.a0 s (store_words s (context_of c) m)

unfoldable pub load_context : ℕ → Words → Cpu → Cpu
load_context s m c =
    load_registers s m
      (record c { mepc = m (slot s 15); mcause = m (slot s 16); mstatus = m (slot s 17) })

unfoldable pub context_switch : Cpu → Words → Cpu × Words
context_switch c m = let m₁ = saved_context c m in (load_context c.a1 m₁ c, m₁)

-- startFirstTask leaves `mstatus` as it is.
unfoldable pub start_first_task : Cpu → Words → Cpu
start_first_task c m = load_registers c.a0 m c

-- `pushDummySwitchFrame` below the top of the stack, with the address of stub_wrapper and `gp`.
unfoldable pub push_dummy_switch_frame : ℕ → ℕ → ℕ → Words → ℕ × Words
push_dummy_switch_frame stub gp top m =
    if top == 0
    then (top, m)
    else (let s = (top + 2 ^ 32 - 72) % 2 ^ 32 in
        (s, store_words s ((0, stub) ∷ (2, gp) ∷ (17, 0x1880) ∷ []) m))

-- The stack of `ThreadControlBlock::init`, for the memory that `malloc` gives at `mem`.
unfoldable pub init_stack : ℕ → ℕ → ℕ → ℕ → ℕ → ℕ → Words → ℕ × Words
init_stack stub gp f arg global_ptr mem m =
    let (s, m₁) = push_dummy_switch_frame stub gp ((mem + 0x1000 - 4) % 2 ^ 32) m in
    (s, store_words s ((11, global_ptr) ∷ (10, arg) ∷ (9, f) ∷ []) m₁)
