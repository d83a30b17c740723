-- ===== src/Threads/Slots.antt =====
-- What the creation loop of `run_one_sweep` (custom-test/test2-rdma-fin.c) leaves, as the monitor sees it.
use mio_xcena.Base.{
  ℕ, zero, suc, ◌+◌, ◌≤◌, ◌<◌, ◌^◌, ◌≡◌, refl, Bool, true, false, ◌&&◌, ◌||◌, ◌==◌, not, ltb, leb,
  if_both, some, [], ◌∷◌, u32, arith,
}
use mio_xcena.Monitor.{
  Handle, scratch, request, node, threads, args, gate, dctx, nic, reader_args, response_ready,
  to_nic, to_reader, create, join_card, open_gate, join, Watch, watch_event, watch,
}
use mio_xcena.Monitor.Steps.{watch-then, watch-next}
use mio_xcena.Threads.{
  Reader, Slot, empty_slot, put_slot, acquire_slot, free_slot, Created, stop, create_readers,
}

-- What is held after the setup, by the pointers of each reader.
abbrev pub holding : (ℕ → Slot) → Handle → Bool
holding s (scratch i) = (s i).scratch
holding s (request i) = (s i).rdma_req
holding s (node i) = (s i).node_pool
holding s threads = true
holding s args = true
holding s gate = true
holding s dctx = true
holding s nic = true
holding s reader_args = true
holding s response_ready = true
holding s to_nic = false
holding s to_reader = false

-- Readers `low, ..., high - 1` run, and the card as `card` tells.
pub record World : Type 0 where
  pub low : ℕ
  pub high : ℕ
  pub is_open : Bool
  pub card : Bool
  pub slots : ℕ → Slot

abbrev pub view : Handle → ℕ → World → Watch
view h k w = record {
  held = holding w.slots h;
  running = leb w.low k && ltb k w.high;
  started = w.high;
  opened = w.is_open;
  card = w.card;
}

acquire_slot-accepted :
    (h : Handle) (k i : ℕ) (s : Slot) (w : World)
    → w.slots i ≡ empty_slot
    → watch h k (acquire_slot i s) (view h k w)
      ≡ some (view h k (record w { slots = put_slot w.slots i s }))
unfolding watch
acquire_slot-accepted h k i s w e = ground arith

-- The pointers of a reader that does not run, when the card does not run.
pub free_slot-accepted :
    (h : Handle) (k i : ℕ) (w : World)
    → (leb w.low i && ltb i w.high) ≡ false
    → w.card ≡ false
    → watch h k (free_slot i (w.slots i)) (view h k w)
      ≡ some (view h k (record w { slots = put_slot w.slots i empty_slot }))
unfolding watch
free_slot-accepted h k i w e f = ground arith

create_reader :
    (h : Handle) (k : ℕ) (w : World)
    → w.low ≤ w.high
    → watch_event h k (view h k w) (create w.high)
      ≡ some (view h k (record w { high = w.high + 1 }))
create_reader h k w le = ground arith

pub open_for_all :
    (h : Handle) (k : ℕ) (w : World)
    → watch_event h k (view h k w) (open_gate w.high)
      ≡ some (view h k (record w { is_open = true }))
open_for_all h k w = ground arith

pub join_first :
    (h : Handle) (k : ℕ) (w : World)
    → w.low < w.high
    → w.is_open ≡ true
    → watch_event h k (view h k w) (join w.low) ≡ some (view h k (record w { low = w.low + 1 }))
join_first h k w lt e = ground arith

pub join_the_card :
    (h : Handle) (k : ℕ) (w : World)
    → w.card ≡ true
    → watch_event h k (view h k w) join_card ≡ some (view h k (record w { card = false }))
join_the_card h k w e = ground arith

-- While the readers are created.
abbrev pub world : (ℕ → Slot) → ℕ → World
world s i = record { low = 0; high = i; is_open = false; card = true; slots = s }

-- The creation loop leaves readers below `c.created`, and no pointer from `upto` on.
pub record IsCreated (h : Handle) (k upto : ℕ) (w : World) (c : Created) : Type 0 where
  pub accepted :
      watch h k c.events (view h k w)
      ≡ some (
          view h k (record {
            low = 0;
            high = c.created;
            is_open = not c.complete;
            card = true;
            slots = c.slots;
          }))
  pub bounded : c.created ≤ upto
  pub full : c.complete ≡ true → c.created ≡ upto
  pub none_beyond : (j : ℕ) → upto ≤ j → c.slots j ≡ empty_slot

put-beyond :
    (s : ℕ → Slot) (i : ℕ) (t : Slot)
    → ((j : ℕ) → i ≤ j → s j ≡ empty_slot)
    → (j : ℕ) → suc i ≤ j
    → put_slot s i t j ≡ empty_slot
put-beyond s i t beyond j le =
    let ne : (i == j) ≡ false = ground arith in rw ne (beyond j (omega arith))

stop-IsCreated :
    (h : Handle) (k i upto : ℕ) (s : ℕ → Slot) (t : Slot)
    → i < upto
    → ((j : ℕ) → i ≤ j → s j ≡ empty_slot)
    → IsCreated h k upto (world s i) (stop i i s t)
unfolding watch
stop-IsCreated h k i upto s t lt beyond =
    let kept : ℕ → Slot = put_slot s i t in
    record {
      accepted =
          watch-then h k (acquire_slot i t) (open_gate i ∷ []) _ (view h k (world kept i)) _
            (acquire_slot-accepted h k i t (world s i) (beyond i (omega arith)))
            (watch-next h k (open_gate i) [] (view h k (world kept i)) _ _
              (open_for_all h k (world kept i)) refl);
      bounded = omega arith;
      full = λ e. cc;
      none_beyond = λ j le. put-beyond s i t beyond j (omega arith);
    }

pub create_readers-IsCreated :
    (h : Handle) (k : ℕ) (copy_to_dst : Bool) (reader : ℕ → Reader) (left i upto : ℕ) (s : ℕ → Slot)
    → i + left ≡ upto
    → upto < 2 ^ 32
    → ((j : ℕ) → i ≤ j → s j ≡ empty_slot)
    → IsCreated h k upto (world s i) (create_readers copy_to_dst reader left i i s)
unfolding create_readers watch
create_readers-IsCreated h k copy_to_dst reader zero i upto s sum small beyond = record {
  accepted = refl;
  bounded = omega arith;
  full = λ e. omega arith;
  none_beyond = λ j le. beyond j (omega arith);
}
create_readers-IsCreated h k copy_to_dst reader (suc left) i upto s sum small beyond =
    let r = reader i in
    let has : Bool = copy_to_dst && r.scratch in
    let slot : Slot = record { scratch = has; rdma_req = r.rdma_req; node_pool = r.node_pool } in
    let kept : ℕ → Slot = put_slot s i slot in
    let rest =
      create_readers-IsCreated h k copy_to_dst reader left (i + 1) upto kept (omega arith) small
        (λ j le. put-beyond s i slot beyond j (omega arith)) in
    let exact : u32 (i + 1) ≡ i + 1 = omega arith in
    if_both (IsCreated h k upto (world s i)) (copy_to_dst && not has) _ _
      (stop-IsCreated h k i upto s empty_slot (omega arith) beyond)
      (if_both (IsCreated h k upto (world s i))
        ((not r.rdma_req || not r.node_pool) || not r.thread) _ _
        (stop-IsCreated h k i upto s slot (omega arith) beyond)
        (rw exact (record {
          accepted =
              watch-then h k (acquire_slot i slot) _ _ _ _
                (acquire_slot-accepted h k i slot (world s i) (beyond i (omega arith)))
                (watch-next h k (create i) _ _ _ _ (create_reader h k (world kept i) (omega arith))
                  rest.accepted);
          bounded = rest.bounded;
          full = rest.full;
          none_beyond = rest.none_beyond;
        })))
