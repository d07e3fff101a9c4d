-- ===== src/Kernel/Invariant/Switch.antt =====
-- `switchCurrentThreadTo`: who runs then, where the thread that leaves is put, and that no assertion
-- of the switch fails.
use flitos.Base.{
  ℕ, suc, ◌+◌, ◌^◌, ◌≤◌, ◌<◌, ◌≡◌, ◌≢◌, refl, sym, append-nil, ap, ◌∙◌, inl, inr, true, false,
  arith, ◌==◌, List, [], ◌∷◌, ◌++◌, if◌then◌else◌, contains, index-insert, contains-insert, ok,
  ◌>>◌, Returns, Bool-cases, ◌⊎◌, ne→==, returns,
}
use flitos.Kernel.State.{
  new_tcb, Kernel, ThreadState, ready, waiting, finished, running, Frame, switched, tcb_of,
  frames_of, push_frame, above,
}
use flitos.Kernel.Scheduler.{
  disable_interrupts, allow_preemption, is_nil, set_state, thread_switch, park,
  debug_context_switch_info, switch_to_next, switchable,
}
use flitos.Kernel.Invariant.Debt.{debt, rank, Ordered-mono}
use flitos.Kernel.Invariant.Census.{census, hit, count, count-append}
use flitos.Kernel.Invariant.Sound.{Joins-same, Sound, After}
use flitos.Kernel.Invariant.Preempt.{balance, owed}

pub Sound-mono : (r q e : ℕ) (k : Kernel) → r ≤ q → Sound r e k → Sound q e k
Sound-mono r q e k h s = record {
  low = s.low;
  even = s.even;
  shape = λ t. ground (arith, s.shape t, Ordered-mono r q (frames_of k t) h);
  present = s.present;
}

-- A frame takes over what it owes.
pub push_frame-After :
    (r e : ℕ) (f : Frame) (k : Kernel)
    → Sound r (debt f + e) k
    → r ≤ rank f
    → After (suc (rank f)) e k (push_frame f k)
push_frame-After r e f k s h = (
  record {
    low = s.low;
    even = λ t. ground (arith, s.even t);
    shape = λ t.
        ground (arith, s.shape t, s.shape k.running, Ordered-mono r (rank f) (frames_of k t) h);
    present = s.present;
  },
  record {
    census_same = λ t. refl;
    kept = λ t h. h;
    room = omega arith;
    joins = Joins-same _ _ refl;
    running_same = refl;
    io_same = refl;
  },
)

pub preemption-set_state :
    (u : ℕ) (s : ThreadState) (k : Kernel) (t : ℕ)
    → (tcb_of (set_state u s k) t).preemption ≡ (tcb_of k t).preemption
unfolding set_state
preemption-set_state u s k t =
    ground (arith, index-insert new_tcb u (record (tcb_of k u) { state = s }) k.tcbs t)

pub contains-set_state :
    (u : ℕ) (s : ThreadState) (k : Kernel) (t : ℕ)
    → contains t (set_state u s k).tcbs ≡ (if u == t then true else contains t k.tcbs)
unfolding set_state
contains-set_state u s k t = contains-insert u (record (tcb_of k u) { state = s }) k.tcbs t

-- Entering another thread, the running one keeps a frame for what it owes.
left :
    (r e : ℕ) (f : Frame) (k l : Kernel)
    → Sound r e k
    → debt f ≡ e
    → r ≤ rank f
    → rank f < 4
    → ((t : ℕ) → (tcb_of l t).preemption ≡ (tcb_of k t).preemption)
    → ((t : ℕ) → frames_of l t ≡ (if k.running == t then f ∷ frames_of k t else frames_of k t))
    → ((t : ℕ) → census t l ≤ census t k)
    → ((t : ℕ) → contains t k.tcbs ≡ true → contains t l.tcbs ≡ true)
    → Sound 4 0 l
left r e f k l s owes h top pre frames fewer kept = record {
  low = λ t. omega (arith, s.low t, pre t);
  even = λ t. ground (arith, s.even t, pre t, frames t);
  shape = λ t. ground (arith, s.shape t, frames t, Ordered-mono r (rank f) (frames_of k t) h);
  present = λ t some_place. kept t (s.present t (omega (arith, fewer t)));
}

pub preemption-marked :
    (k : Kernel) (c n : ℕ) (s : ThreadState) (t : ℕ)
    → (tcb_of (set_state n running (set_state c s k)) t).preemption ≡ (tcb_of k t).preemption
preemption-marked k c n s t =
    preemption-set_state n running (set_state c s k) t ∙ preemption-set_state c s k t

pub contains-marked :
    (k : Kernel) (c n : ℕ) (s : ThreadState) (t : ℕ)
    → contains t (set_state n running (set_state c s k)).tcbs
      ≡ (if n == t then true else if c == t then true else contains t k.tcbs)
contains-marked k c n s t =
    ground (arith, contains-set_state n running (set_state c s k) t, contains-set_state c s k t)

-- How often the thread that leaves is put into a list.
unfoldable pub parked : ThreadState → ℕ → ℕ → ℕ
parked ready t u = hit t u
parked finished t u = hit t u
parked s t u = 0

-- What a thread that leaves with the state `s` adds to the ready list and to the finished list.
abbrev pub ready_tail : ThreadState → ℕ → List ℕ
ready_tail ready t = t ∷ []
ready_tail s t = []

abbrev pub finished_tail : ThreadState → ℕ → List ℕ
finished_tail finished t = t ∷ []
finished_tail s t = []

-- The first ready thread runs, and the one that leaves is where its new state says.
pub record Gone (s : ThreadState) (k l : Kernel) : Type 0 where
  pub rest : List ℕ
  pub chosen : k.ready_list ≡ l.running ∷ rest
  pub ready_now : l.ready_list ≡ rest ++ ready_tail s k.running
  pub finished_now : l.finished_list ≡ k.finished_list ++ finished_tail s k.running
  pub mutexes_same : l.mutexes ≡ k.mutexes
  pub conds_same : l.conds ≡ k.conds
  pub frames_now : frames_of l k.running ≡ switched ∷ frames_of k k.running
  pub data_kept : l.io ≡ k.io

abbrev pub Switched : ThreadState → Kernel → Kernel → Type 0
Switched s k l =
    Sound 4 0 l
    × ((t : ℕ) → census t l + hit t k.running ≡ census t k + parked s t k.running)
    × ((t : ℕ) → contains t k.tcbs ≡ true → contains t l.tcbs ≡ true)
    × Gone s k l

not_allowed :
    (k : Kernel)
    → contains k.running k.tcbs ≡ true
    → above 0 (tcb_of k k.running).preemption ≡ false
    → allow_preemption k ≡ ok false
unfolding allow_preemption
not_allowed k there off = elim (Bool-cases (is_nil k.tcbs)) [
  | inl nobody ↦ rw nobody
  | inr some_thread ↦ rw (some_thread, there, off)
]

-- In the kernel preemption is off.
above-owing :
    (r : ℕ) (k : Kernel) → Sound r 1 k → r ≤ 4 → above 0 (tcb_of k k.running).preemption ≡ false
above-owing r k s h =
    let even = balance r 1 k s in
    let few = owed r 1 k s h in
    let low = s.low k.running in
    let p : ℕ = (tcb_of k k.running).preemption in
    let range : (p ≡ 0) ⊎ (2 ^ 31 ≤ p) = grind arith in ground arith

module _ (r : ℕ) (s : ThreadState) (next : ℕ) (k : Kernel) (sound : Sound r 1 k) (h : r ≤ 3) where
  abbrev parting : List ℕ → List ℕ → Kernel
  parting rs fs = record (set_state next running (set_state k.running s k)) {
    ready_list = rs;
    finished_list = fs;
  }

  depart :
      (rest rs fs : List ℕ)
      → k.running ≢ next
      → k.ready_list ≡ next ∷ rest
      → rs ≡ rest ++ ready_tail s k.running
      → fs ≡ k.finished_list ++ finished_tail s k.running
      → ((t : ℕ)
          → hit t next + count t rs + count t fs
            ≡ count t k.ready_list + count t k.finished_list + parked s t k.running)
      → ((t : ℕ) → parked s t k.running ≤ hit t k.running)
      → Returns (Switched s k) (do
        debug_context_switch_info k.running next false (parting rs fs)
        let q = record (disable_interrupts (push_frame switched (parting rs fs))) { running = next }
        ok (thread_switch k.running next q))
  unfolding debug_context_switch_info set_state thread_switch disable_interrupts
  depart rest rs fs ne e rs_now fs_now moved once =
      let off : allow_preemption (parting rs fs) ≡ ok false =
        not_allowed (parting rs fs) (contains-marked k k.running next s k.running ∙ ground arith) (
          ap (above 0) (preemption-marked k k.running next s k.running)
          ∙ above-owing r k sound (omega arith)) in
      rw (ne→== k.running next ne, off)
        (returns (
          left r 1 switched k _ sound refl h (omega arith) (preemption-marked k k.running next s)
              (λ t. ground arith) (λ t. omega (arith, moved t, once t))
              (λ t there. contains-marked k k.running next s t ∙ ground arith),
          λ t. omega (arith, moved t),
          λ t there. contains-marked k k.running next s t ∙ ground arith,
          record {
            rest = rest;
            chosen = e;
            ready_now = rs_now;
            finished_now = fs_now;
            mutexes_same = refl;
            conds_same = refl;
            frames_now = ground arith;
            data_kept = refl;
          },
        ))

-- The switch itself: no assertion fails, the first ready thread runs, and the thread that leaves is
-- put where its new state says.
pub switch_to_next-Switched :
    (r : ℕ) (s : ThreadState) (next : ℕ) (rest : List ℕ) (k : Kernel)
    → Sound r 1 k
    → r ≤ 3
    → switchable s ≡ true
    → k.ready_list ≡ next ∷ rest
    → k.running ≢ next
    → Returns (Switched s k) (switch_to_next s next rest k)
unfolding switch_to_next park parked set_state
switch_to_next-Switched r ready next rest k sound h good e ne = rw (ne→== k.running next ne) (
    depart r ready next k sound h rest (rest ++ (k.running ∷ [])) k.finished_list ne e refl
      (sym (append-nil k.finished_list))
      (λ t. rw e (omega (arith, count-append t rest (k.running ∷ [])))) (λ t. omega arith))
switch_to_next-Switched r waiting next rest k sound h good e ne = rw (ne→== k.running next ne) (
    depart r waiting next k sound h rest rest k.finished_list ne e (sym (append-nil rest))
      (sym (append-nil k.finished_list)) (λ t. rw e (omega arith)) (λ t. omega arith))
switch_to_next-Switched r finished next rest k sound h good e ne = rw (ne→== k.running next ne) (
    depart r finished next k sound h rest rest (k.finished_list ++ (k.running ∷ [])) ne e
      (sym (append-nil rest)) refl
      (λ t. rw e (omega (arith, count-append t k.finished_list (k.running ∷ []))))
      (λ t. omega arith))
switch_to_next-Switched r s next rest k sound h good e ne = cc
