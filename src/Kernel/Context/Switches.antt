-- ===== src/Kernel/Context/Switches.antt =====
-- What a thread finds in its registers: one that was switched out and in again, and a new one.
use flitos.Base.{
  ℕ, ◌+◌, ◌-◌, ◌%◌, ◌^◌, ◌≤◌, ◌<◌, ◌≡◌, ◌≢◌, refl, sym, subst, ◌∙◌, ap, false, arith, ◌==◌,
  if◌then◌else◌, List, [], ◌∷◌,
}
use flitos.Kernel.Context.{
  Words, Cpu, slot, store_word_at, store_words, context_of, load_registers, saved_context,
  load_context, context_switch, push_dummy_switch_frame, init_stack,
}

-- What the last store to the offset `i` leaves there.
unfoldable latest : ℕ → List (ℕ × ℕ) → ℕ → ℕ
latest i [] d = d
latest i ((j, v) ∷ ws) d = latest i ws (if j == i then v else d)

abbrev Within : List (ℕ × ℕ) → Type 0
Within [] = Unit {0}
Within ((j, v) ∷ ws) = (j < 18) × Within ws

store_words-slot :
    (s i : ℕ) (ws : List (ℕ × ℕ)) (m : Words)
    → i < 18
    → Within ws
    → store_words s ws m (slot s i) ≡ latest i ws (m (slot s i))
unfolding store_words latest
store_words-slot s i [] m small within = refl
store_words-slot s i ((j, v) ∷ ws) m small within =
    store_words-slot s i ws (store_word_at (slot s j) v m) small within.1
    ∙ ap (latest i ws) (ground (arith, within.0))

-- An address outside the context keeps its word.
store_words-apart :
    (s a : ℕ) (ws : List (ℕ × ℕ)) (m : Words)
    → Within ws
    → ((i : ℕ) → i < 18 → slot s i ≢ a)
    → store_words s ws m a ≡ m a
unfolding store_words
store_words-apart s a [] m within apart = refl
store_words-apart s a ((j, v) ∷ ws) m within apart =
    store_words-apart s a ws (store_word_at (slot s j) v m) within.1 apart
    ∙ ground (arith, apart j within.0)

-- Where context_switch leaves the context of a thread.
abbrev pub frame_of : Cpu → ℕ
frame_of c = (c.sp + 2 ^ 32 - 72) % 2 ^ 32

-- Neither the context of `d` nor the place where it puts its stack pointer meets the context at `s`.
abbrev pub ApartFrom : ℕ → Cpu → Type 0
ApartFrom s d =
    ((i j : ℕ) → i < 18 → j < 18 → slot (frame_of d) j ≢ slot s i)
    × ((i : ℕ) → i < 18 → slot s i ≢ d.a0)

abbrev pub SameContext : ℕ → Words → Words → Type 0
SameContext s m n = (i : ℕ) → i < 18 → n (slot s i) ≡ m (slot s i)

store_word_at-other : (a v b : ℕ) (m : Words) → b ≢ a → store_word_at a v m b ≡ m b
store_word_at-other a v b m ne = ground (arith, ne)

store_word_at-same : (a v : ℕ) (m : Words) → store_word_at a v m a ≡ v
store_word_at-same a v m = ground arith

context_of-Within : (c : Cpu) → Within (context_of c)
unfolding context_of
context_of-Within c = (
  omega arith,
  (
    omega arith,
    (
      omega arith,
      (
        omega arith,
        (
          omega arith,
          (
            omega arith,
            (
              omega arith,
              (
                omega arith,
                (
                  omega arith,
                  (
                    omega arith,
                    (
                      omega arith,
                      (
                        omega arith,
                        (
                          omega arith,
                          (omega arith, (omega arith, (omega arith, (omega arith, tt)))),
                        ),
                      ),
                    ),
                  ),
                ),
              ),
            ),
          ),
        ),
      ),
    ),
  ),
)

saved_context-apart :
    (s : ℕ) (d : Cpu) (m : Words) → ApartFrom s d → SameContext s m (saved_context d m)
unfolding saved_context
saved_context-apart s d m (frames, field) i small =
    store_word_at-other d.a0 (frame_of d) (slot s i) (store_words (frame_of d) (context_of d) m)
      (field i small)
    ∙ store_words-apart (frame_of d) (slot s i) (context_of d) m (context_of-Within d)
        λ j inside. frames i j small inside

-- The context of a thread, where its own stack pointer is not kept in it.
saved_context-own :
    (c : Cpu) (m : Words) (i : ℕ)
    → i < 18
    → slot (frame_of c) i ≢ c.a0
    → saved_context c m (slot (frame_of c) i) ≡ latest i (context_of c) (m (slot (frame_of c) i))
unfolding saved_context
saved_context-own c m i small field =
    store_word_at-other c.a0 (frame_of c) (slot (frame_of c) i)
      (store_words (frame_of c) (context_of c) m) field
    ∙ store_words-slot (frame_of c) i (context_of c) m small (context_of-Within c)

loaded :
    (c d : Cpu) (m w : Words)
    → c.sp < 2 ^ 32
    → ((i : ℕ)
        → i < 18
        → w (slot (frame_of c) i) ≡ latest i (context_of c) (m (slot (frame_of c) i)))
    → load_context (frame_of c) w d ≡ record c { pc = c.ra }
unfolding load_context load_registers latest context_of
loaded c d m w small word =
    let top : slot (frame_of c) 18 ≡ c.sp = omega arith in
    λ i. record {
      pc = word 0 (omega arith) i;
      ra = word 0 (omega arith) i;
      sp = top i;
      gp = word 2 (omega arith) i;
      tp = word 3 (omega arith) i;
      t0 = word 4 (omega arith) i;
      t1 = word 5 (omega arith) i;
      t2 = word 6 (omega arith) i;
      s0 = word 7 (omega arith) i;
      s1 = word 8 (omega arith) i;
      a0 = word 9 (omega arith) i;
      a1 = word 10 (omega arith) i;
      a2 = word 11 (omega arith) i;
      a3 = word 12 (omega arith) i;
      a4 = word 13 (omega arith) i;
      a5 = word 14 (omega arith) i;
      mepc = word 15 (omega arith) i;
      mcause = word 16 (omega arith) i;
      mstatus = word 17 (omega arith) i;
    }

-- A thread that is switched out, and in again later with the stack pointer that the switch kept,
-- finds all its registers as they were, `mepc`, `mcause` and `mstatus` included, and goes on behind
-- its call, where nobody wrote to its context in between, the thread that switches back keeps its own
-- context and stack pointer elsewhere, and the first one's stack pointer is not kept in its context.
pub switch-back :
    (c d : Cpu) (m n : Words)
    → c.sp < 2 ^ 32
    → ((i : ℕ) → i < 18 → slot (frame_of c) i ≢ c.a0)
    → d.a1 ≡ (context_switch c m).1 c.a0
    → SameContext (frame_of c) ((context_switch c m).1) n
    → ApartFrom (frame_of c) d
    → (context_switch d n).0 ≡ record c { pc = c.ra }
unfolding context_switch saved_context
switch-back c d m n small field back same apart =
    let s : ℕ = frame_of c in
    let word : (i : ℕ)
        → i < 18
        → saved_context d n (slot s i) ≡ latest i (context_of c) (m (slot s i)) =
      λ i inside.
        saved_context-apart s d n apart i inside
        ∙ same i inside
        ∙ saved_context-own c m i inside (field i inside) in
    let top : d.a1 ≡ s = back ∙ store_word_at-same c.a0 s (store_words s (context_of c) m) in
    ap (λ a. load_context a (saved_context d n) d) top ∙ loaded c d m (saved_context d n) small word

-- Where a new thread's context is, for the memory that `malloc` gives.
abbrev pub new_frame : ℕ → ℕ
new_frame mem = mem + 0x1000 - 4 - 72

init_stack-slot :
    (stub gp f arg global_ptr mem i : ℕ) (m : Words)
    → mem + 0x1000 ≤ 2 ^ 32
    → i < 18
    → ((init_stack stub gp f arg global_ptr mem m).0 ≡ new_frame mem)
      × ((init_stack stub gp f arg global_ptr mem m).1 (slot (new_frame mem) i)
          ≡ latest i
              ((11, global_ptr) ∷ (10, arg) ∷ (9, f) ∷ [])
              (latest i ((0, stub) ∷ (2, gp) ∷ (17, 0x1880) ∷ []) (m (slot (new_frame mem) i))))
unfolding init_stack push_dummy_switch_frame
init_stack-slot stub gp f arg global_ptr mem i m inside small =
    let first : List (ℕ × ℕ) = (0, stub) ∷ (2, gp) ∷ (17, 0x1880) ∷ [] in
    let second : List (ℕ × ℕ) = (11, global_ptr) ∷ (10, arg) ∷ (9, f) ∷ [] in
    let s : ℕ = new_frame mem in
    let top : (mem + 0x1000 - 4) % 2 ^ 32 ≡ mem + 0x1000 - 4 = omega arith in
    let some : ((mem + 0x1000 - 4) == 0) ≡ false = ground arith in
    let low : (mem + 0x1000 - 4 + 2 ^ 32 - 72) % 2 ^ 32 ≡ s = omega arith in
    rw (top, some, low)
      (
        refl,
        store_words-slot s i second (store_words s first m) small
              (omega arith, (omega arith, (omega arith, tt)))
            ∙ ap (latest i second) (
                store_words-slot s i first m small (omega arith, (omega arith, (omega arith, tt)))),
      )

-- What stub_wrapper finds: its address and that of the thread's function, the argument and the two
-- global pointers, on top of the new stack, with the `mstatus` 0x1880.
pub record Starts (stub gp f arg global_ptr mem : ℕ) (c : Cpu) : Type 0 where
  pub at_stub : c.pc ≡ stub
  pub function : c.a0 ≡ f
  pub argument : c.a1 ≡ arg
  pub thread_gp : c.a2 ≡ global_ptr
  pub os_gp : c.gp ≡ gp
  pub status : c.mstatus ≡ 0x1880
  pub stack_top : c.sp ≡ mem + 0x1000 - 4

-- The first switch to a thread that `init` made, by the stack pointer that it gave, starts
-- stub_wrapper with the thread's function, its argument and its global pointer, on an empty stack and
-- with interrupts off, where the stack lies below 2^32, nobody wrote to the new context in between,
-- and the thread that switches keeps its own context and stack pointer elsewhere.
pub init_stack-Starts :
    (stub gp f arg global_ptr mem : ℕ) (c : Cpu) (m n : Words)
    → mem + 0x1000 ≤ 2 ^ 32
    → c.a1 ≡ (init_stack stub gp f arg global_ptr mem m).0
    → SameContext (new_frame mem) ((init_stack stub gp f arg global_ptr mem m).1) n
    → ApartFrom (new_frame mem) c
    → Starts stub gp f arg global_ptr mem ((context_switch c n).0)
unfolding context_switch load_context load_registers latest
init_stack-Starts stub gp f arg global_ptr mem c m n inside here same apart =
    let s : ℕ = new_frame mem in
    let top : c.a1 ≡ s =
      here ∙ (init_stack-slot stub gp f arg global_ptr mem 0 m inside (omega arith)).0 in
    let word : (i : ℕ)
        → i < 18
        → saved_context c n (slot s i)
          ≡ latest i ((11, global_ptr) ∷ (10, arg) ∷ (9, f) ∷ [])
              (latest i ((0, stub) ∷ (2, gp) ∷ (17, 0x1880) ∷ []) (m (slot s i))) =
      λ i small.
        saved_context-apart s c n apart i small
        ∙ same i small
        ∙ (init_stack-slot stub gp f arg global_ptr mem i m inside small).1 in
    subst (λ a. Starts stub gp f arg global_ptr mem (load_context a (saved_context c n) c))
      (sym top)
      (record {
        at_stub = word 0 (omega arith);
        function = word 9 (omega arith);
        argument = word 10 (omega arith);
        thread_gp = word 11 (omega arith);
        os_gp = word 2 (omega arith);
        status = word 17 (omega arith);
        stack_top = omega arith;
      })
