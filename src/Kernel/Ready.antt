-- ===== src/Kernel/Ready.antt =====
-- What a system call does to the pipes before it locks or returns.
use flitos.Base.{
  ℕ, suc, ◌+◌, ◌≤◌, ◌<◌, ◌≡◌, refl, sym, ◌∙◌, ap, subst, Bool, true, false, arith, ◌==◌, List,
  if◌then◌else◌, contains, index, length, index-insert, index-remove, Erasable, erase_key-Returns,
  Returns-bind, returns, index-absent, inl, inr, Bool-cases, Returns, Returns-mono,
}
use flitos.Firmware.Handlers.{Live}
use flitos.Kernel.Io.{Pipe, Io}
use flitos.Kernel.State.{Kernel, Frame, push_frame, minus_one}
use flitos.Kernel.Sync.{lock, create_mutex, create_cond}
use flitos.Kernel.Pipes.{
  no_pipe, pipe_of, put_io, make_pipe, subscript_pipe, open_pipe, close_pipe, set_ret,
  allocator_mutex_instance,
}
use flitos.Kernel.Invariant.Debt.{debt, rank}
use flitos.Kernel.Invariant.Census.{census}
use flitos.Kernel.Invariant.Turn.{TurnOf, stays, Turn-behind}
use flitos.Kernel.Invariant.Sound.{Joins, Joins-same, Joins-trans, Sound, After, Keeps-trans}
use flitos.Kernel.Invariant.Switch.{Sound-mono, push_frame-After}
use flitos.Kernel.Invariant.Block.{Single, lock-Moves}
use flitos.Kernel.Invariant.Transfer.{set_ret-Sound, put_io-Sound}
use flitos.Kernel.Invariant.Create.{
  next_id, FreshMutex, FreshCond, create_mutex-After, create_cond-After,
}
use flitos.Kernel.AllCalls.{Lands}

-- Nobody waits yet where the next mutex and the next condition variable go.
abbrev pub FreshPair : Kernel → Type 0
FreshPair k = FreshMutex k × FreshCond k

abbrev pub bytes_of : Kernel → ℕ → List ℕ
bytes_of k p = (pipe_of k p).bytes

-- What a system call does: `more` threads, and the pipes that it does not clear have their bytes.
pub record Serves (more : ℕ → ℕ) (clears : ℕ → Bool) (k l : Kernel) : Type 0 where
  pub sound : Sound 4 0 l
  pub counts : (t : ℕ) → census t l ≡ census t k + more t
  pub bytes_same : (p : ℕ) → clears p ≡ false → bytes_of l p ≡ bytes_of k p
  pub live : Live k.io.handlers → Live l.io.handlers
  pub turn : TurnOf k l

-- The same before the thread may leave.
pub record Readies (clears : ℕ → Bool) (k j : Kernel) : Type 0 where
  pub steady : Sound 1 0 j
  pub places_same : (t : ℕ) → census t j ≡ census t k
  pub room : length k.ready_list ≤ length j.ready_list
  pub bytes_kept : (p : ℕ) → clears p ≡ false → bytes_of j p ≡ bytes_of k p
  pub live_kept : Live k.io.handlers → Live j.io.handlers
  pub same_thread : j.running ≡ k.running
  pub joined : Joins k.ready_list j.ready_list

pub bytes-same : (k l : Kernel) (p : ℕ) → l.io ≡ k.io → bytes_of l p ≡ bytes_of k p
bytes-same k l p io = ap (λ (i : Io). (index no_pipe p i.pipes).bytes) io

pub Live-same : (k l : Kernel) → l.io ≡ k.io → Live k.io.handlers → Live l.io.handlers
Live-same k l io h = subst (λ (i : Io). Live i.handlers) (sym io) h

pub of_Lands :
    (more : ℕ → ℕ) (clears : ℕ → Bool) (k l : Kernel) → Lands more k l → Serves more clears k l
of_Lands more clears k l (s, counts, io, turn) = record {
  sound = s;
  counts = counts;
  bytes_same = λ p h. bytes-same k l p io;
  live = Live-same k l io;
  turn = turn;
}

pub Ready-here : (clears : ℕ → Bool) (k : Kernel) → Sound 1 0 k → Readies clears k k
Ready-here clears k s = record {
  steady = s;
  places_same = λ t. refl;
  room = omega arith;
  bytes_kept = λ p h. refl;
  live_kept = λ h. h;
  same_thread = refl;
  joined = Joins-same _ _ refl;
}

pub Ready-After :
    (clears : ℕ → Bool) (k j l : Kernel) → Readies clears k j → After 1 0 j l → Readies clears k l
Ready-After clears k j l r (s, keeps) = record {
  steady = s;
  places_same = λ t. keeps.census_same t ∙ r.places_same t;
  room = omega (arith, keeps, r);
  bytes_kept = λ p h. bytes-same j l p keeps.io_same ∙ r.bytes_kept p h;
  live_kept = λ h. Live-same j l keeps.io_same (r.live_kept h);
  same_thread = keeps.running_same ∙ r.same_thread;
  joined = Joins-trans _ _ _ r.joined keeps.joins;
}

-- Other data, with the same bytes in the pipes that it does not clear.
pub Ready-put_io :
    (clears : ℕ → Bool) (i : Io) (k j : Kernel)
    → Readies clears k j
    → (Live j.io.handlers → Live i.handlers)
    → ((p : ℕ) → clears p ≡ false → (index no_pipe p i.pipes).bytes ≡ bytes_of j p)
    → Readies clears k (put_io i j)
Ready-put_io clears i k j r live same = record {
  steady = put_io-Sound 1 0 i j r.steady;
  places_same = r.places_same;
  room = r.room;
  bytes_kept = λ p h. same p h ∙ r.bytes_kept p h;
  live_kept = λ h. live (r.live_kept h);
  same_thread = r.same_thread;
  joined = r.joined;
}

-- A call that returns `v` at once.
pub answered :
    (clears : ℕ → Bool) (v : ℕ) (k j : Kernel)
    → Readies clears k j
    → Serves (λ t. 0) clears k (set_ret v j)
unfolding set_ret
answered clears v k j r = record {
  sound = Sound-mono 1 4 0 (set_ret v j) (omega arith) (set_ret-Sound 1 0 v j r.steady);
  counts = λ t. omega (arith, r.places_same t);
  bytes_same = r.bytes_kept;
  live = r.live_kept;
  turn = stays r.same_thread r.joined;
}

pub served_at_once :
    (clears : ℕ → Bool) (k j : Kernel) → Readies clears k j → Serves (λ t. 0) clears k j
served_at_once clears k j r = record {
  sound = Sound-mono 1 4 0 j (omega arith) r.steady;
  counts = λ t. omega (arith, r.places_same t);
  bytes_same = r.bytes_kept;
  live = r.live_kept;
  turn = stays r.same_thread r.joined;
}

-- A call that locks a mutex, with its rest left as a frame.
pub lock-Serves :
    (clears : ℕ → Bool) (m : ℕ) (f : Frame) (k j : Kernel)
    → Readies clears k j
    → debt f ≡ 0
    → rank f ≡ 1
    → Single k
    → 0 < length k.ready_list
    → Returns (Serves (λ t. 0) clears k) (lock m (push_frame f j))
lock-Serves clears m f k j r free one single others =
    let owes : Sound 1 (debt f + 0) j = subst (λ d. Sound 1 d j) (omega (arith, free)) r.steady in
    let (pushed, keeps) = push_frame-After 1 0 f j owes (omega (arith, one)) in
    Returns-mono
      (lock-Moves (suc (rank f)) m (push_frame f j) pushed (omega (arith, one))
        (λ t. omega (arith, r.places_same t, single t)) (omega (arith, r.room)))
      λ l moves. record {
        sound = moves.sound;
        counts = λ t. omega (arith, moves.census_same t, r.places_same t);
        bytes_same = λ p h. bytes-same j l p moves.io_same ∙ r.bytes_kept p h;
        live = λ h. Live-same j l moves.io_same (r.live_kept h);
        turn = Turn-behind _ _ _ _ _ _ r.same_thread r.joined moves.turn;
      }

make_pipe-After : (k : Kernel) → Sound 1 0 k → FreshPair k → After 1 0 k ((make_pipe k).1)
unfolding make_pipe create_mutex create_cond
make_pipe-After k s (fresh_mutex, fresh_cond) =
    let (inner, keeps) = create_mutex-After 1 0 k s fresh_mutex in
    let (outer, more) = create_cond-After 1 0 ((create_mutex k).1) inner fresh_cond in
    (outer, Keeps-trans keeps more)

-- `id_map_[p]` may make a pipe, and an empty one then.
pub subscript_pipe-Ready :
    (clears : ℕ → Bool) (p : ℕ) (k j : Kernel)
    → Readies clears k j
    → (contains p j.io.pipes ≡ false → FreshPair j)
    → Readies clears k (subscript_pipe p j)
unfolding subscript_pipe make_pipe create_mutex create_cond
subscript_pipe-Ready clears p k j r fresh = elim (Bool-cases (contains p j.io.pipes)) [
  | inl there ↦ rw there r
  | inr absent ↦ rw absent (
      Ready-put_io clears _ k ((make_pipe j).1)
        (Ready-After clears k j ((make_pipe j).1) r (make_pipe-After j r.steady (fresh absent)))
        (λ h. h)
        λ q h.
          ap (λ (x : Pipe). x.bytes) (index-insert no_pipe p ((make_pipe j).0) j.io.pipes q)
          ∙ ground (arith, ap (λ (x : Pipe). x.bytes) (index-absent no_pipe p j.io.pipes absent)))
]

pub open_pipe-Ready :
    (k : Kernel)
    → Sound 1 0 k
    → FreshPair k
    → FreshPair ((make_pipe k).1)
    → Readies (λ p. next_id k.io.pipe_seq == p) k ((open_pipe k).1)
unfolding open_pipe make_pipe create_mutex create_cond
open_pipe-Ready k s first second =
    let id : ℕ = next_id k.io.pipe_seq in
    let clears : ℕ → Bool = λ p. id == p in
    let k₀ : Kernel = put_io (record (k.io) { pipe_seq = id }) k in
    let made : Readies clears k ((make_pipe k₀).1) =
      Ready-After clears k k₀ ((make_pipe k₀).1)
        (Ready-put_io clears _ k k (Ready-here clears k s) (λ h. h) (λ p h. refl))
        (make_pipe-After k₀ (put_io-Sound 1 0 _ k s) first) in
    let k₂ : Kernel = subscript_pipe id ((make_pipe k₀).1) in
    Ready-put_io clears _ k k₂
      (subscript_pipe-Ready clears id k ((make_pipe k₀).1) made (λ absent. second)) (λ h. h)
      λ p h.
        ap (λ (x : Pipe). x.bytes) (index-insert no_pipe id ((make_pipe k₀).0) k₂.io.pipes p)
        ∙ ap (λ b. (if b then (make_pipe k₀).0 else pipe_of k₂ p).bytes) h

pub close_pipe-Ready :
    (p : ℕ) (k : Kernel)
    → Sound 1 0 k
    → Erasable p k.io.pipes
    → Returns (Readies (λ q. p == q) k) (close_pipe p k)
unfolding close_pipe
close_pipe-Ready p k s between = Returns-bind (erase_key-Returns p k.io.pipes between) λ t now.
    returns (
      Ready-put_io (λ q. p == q) _ k k (Ready-here (λ q. p == q) k s) (λ h. h)
        λ q h.
          ap (λ u. (index no_pipe q u).bytes) now
          ∙ ap (λ (x : Pipe). x.bytes) (index-remove no_pipe p k.io.pipes q h))

pub allocator_mutex_instance-Ready :
    (clears : ℕ → Bool) (k : Kernel)
    → Sound 1 0 k
    → ((k.io.mtx_allocator == minus_one) ≡ true → FreshMutex k)
    → Readies clears k ((allocator_mutex_instance k).1)
unfolding allocator_mutex_instance create_mutex
allocator_mutex_instance-Ready clears k s fresh =
    elim (Bool-cases (k.io.mtx_allocator == minus_one)) [
      | inl unmade ↦ rw unmade (
          Ready-put_io clears _ k ((create_mutex k).1)
            (Ready-After clears k k ((create_mutex k).1) (Ready-here clears k s)
              (create_mutex-After 1 0 k s (fresh unmade)))
            (λ h. h) λ p h. refl)
      | inr made ↦ rw made (Ready-here clears k s)
    ]
