-- ===== src/Monitor/Steps.antt =====
-- Lemmas on the monitor: sequences of events, and what single events do to a world in which readers
-- `low, ..., high - 1` run and the buffers that are held are given by a table.
use mio_xcena.Base.{
  ℕ, ◌+◌, ◌≤◌, ◌<◌, ◌≡◌, refl, Bool, true, false, ◌&&◌, ◌==◌, ltb, leb, if◌then◌else◌, Option, some,
  ◌>>=◌, List, [], ◌∷◌, ◌++◌, arith, inl, inr, Option-cases,
}
use mio_xcena.Monitor.{
  Handle, scratch, request, threads, args, gate, dctx, nic, reader_args, response_ready, node,
  to_nic, to_reader, Event, create, open_gate, join, free_if, acquire_if, Watch, watch_event, watch,
  Ends,
}

pub watch-append :
    (h : Handle) (k : ℕ) (xs ys : List Event) (w : Watch)
    → watch h k (xs ++ ys) w ≡ (watch h k xs w >>= watch h k ys)
unfolding watch
watch-append h k [] ys w = refl
watch-append h k (x ∷ xs) ys w = elim (Option-cases (watch_event h k w x)) [
  | inl e ↦ rw e refl
  | inr (v, e) ↦ rw e (watch-append h k xs ys v)
]

-- One run of events after another.
pub watch-then :
    (h : Handle) (k : ℕ) (xs ys : List Event) (u v : Watch) (r : Option Watch)
    → watch h k xs u ≡ some v
    → watch h k ys v ≡ r
    → watch h k (xs ++ ys) u ≡ r
watch-then h k xs ys u v r e f = rw (watch-append h k xs ys u, e) f

pub watch-next :
    (h : Handle) (k : ℕ) (x : Event) (ys : List Event) (u v : Watch) (r : Option Watch)
    → watch_event h k u x ≡ some v
    → watch h k ys v ≡ r
    → watch h k (x ∷ ys) u ≡ r
unfolding watch
watch-next h k x ys u v r e f = rw e f

-- Which buffers are held, by reader; the arrays and the gate of the read phase are held, and nothing
-- else.
abbrev pub holding : (ℕ → Bool) → Handle → Bool
holding s (scratch i) = s i
holding s (request i) = false
holding s (node i) = false
holding s threads = true
holding s args = true
holding s gate = true
holding s dctx = false
holding s nic = false
holding s reader_args = false
holding s response_ready = false
holding s to_nic = false
holding s to_reader = false

-- Readers `low, ..., high - 1` run.
pub record World : Type 0 where
  pub low : ℕ
  pub high : ℕ
  pub is_open : Bool
  pub buffers : ℕ → Bool

abbrev pub view : Handle → ℕ → World → Watch
view h k w = record {
  held = holding w.buffers h;
  running = leb w.low k && ltb k w.high;
  started = w.high;
  opened = w.is_open;
  card = false;
}

abbrev pub put : (ℕ → Bool) → ℕ → Bool → ℕ → Bool
put f i b j = if i == j then b else f j

pub acquire_scratch :
    (h : Handle) (k i : ℕ) (b : Bool) (w : World)
    → w.buffers i ≡ false
    → watch h k (acquire_if b (scratch i)) (view h k w)
      ≡ some (view h k (record w { buffers = put w.buffers i b }))
unfolding watch
acquire_scratch h k i b w e = ground arith

pub create_reader :
    (h : Handle) (k : ℕ) (w : World)
    → w.low ≤ w.high
    → watch_event h k (view h k w) (create w.high)
      ≡ some (view h k (record w { high = w.high + 1 }))
create_reader h k w le = ground arith

pub open_for_all :
    (h : Handle) (k : ℕ) (w : World)
    → watch_event h k (view h k w) (open_gate w.high)
      ≡ some (view h k (record w { is_open = true }))
open_for_all h k w = ground arith

pub join_first :
    (h : Handle) (k : ℕ) (w : World)
    → w.low < w.high
    → w.is_open ≡ true
    → watch_event h k (view h k w) (join w.low) ≡ some (view h k (record w { low = w.low + 1 }))
join_first h k w lt e = ground arith

-- The buffer of a reader that does not run.
pub release_scratch :
    (h : Handle) (k i : ℕ) (w : World)
    → (leb w.low i && ltb i w.high) ≡ false
    → watch h k (free_if (w.buffers i) (scratch i)) (view h k w)
      ≡ some (view h k (record w { buffers = put w.buffers i false }))
unfolding watch
release_scratch h k i w e = ground arith

pub then-Ends :
    (h : Handle) (k : ℕ) (xs ys : List Event) (u v : Watch)
    → watch h k xs u ≡ some v
    → Ends (watch h k ys v)
    → Ends (watch h k (xs ++ ys) u)
then-Ends h k xs ys u v e f = rw (watch-then h k xs ys u v _ e refl) f

pub next-Ends :
    (h : Handle) (k : ℕ) (x : Event) (ys : List Event) (u v : Watch)
    → watch_event h k u x ≡ some v
    → Ends (watch h k ys v)
    → Ends (watch h k (x ∷ ys) u)
next-Ends h k x ys u v e f = rw (watch-next h k x ys u v _ e refl) f
