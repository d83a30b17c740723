-- ===== src/Rings/Tests.antt =====
-- Small runs of custom-test/test4-nowait.c, over rings that are lists with a capacity.
use mio_xcena.Base.{
  ℕ, zero, suc, ◌+◌, ◌-◌, ◌*◌, ◌≤◌, ◌<◌, ◌≡◌, refl, true, false, not, leb, le→leb, lt→leb, ◌==◌,
  if◌then◌else◌, Option, none, some, List, [], ◌∷◌, ◌++◌, length, take, drop, arith, add-zero,
  eq_or_ne, inl, inr,
}
use mio_xcena.Nic.Tests.{whole_ns}
use mio_xcena.Monitor.{scratch, watch, fresh}
use mio_xcena.Rings.{Flag, RingLibrary, Card, rnic_thread}
use mio_xcena.Rings.Lanes.{lane, AllOwn, moved, rnic_thread-lane}
use mio_xcena.Rings.Run.{Reader, events_of, read_rdma}
use mio_xcena.Rings.Prepared.{IsStarted}
use mio_xcena.Rings.Refused.{read_rdma-refused}
use mio_xcena.Rings.Main.{ring, Calls, main}
use mio_xcena.Rings.Left.{held_after, left_at_exit, main-left}

-- What a ring holds, and how much it still takes.
abbrev ListRing : Type 0
ListRing = List ℕ × ℕ

abbrev list_create : List Flag → ℕ → Option ListRing
list_create flags zero = none
list_create flags (suc n) = some ([], n)

abbrev list_enqueue : ListRing → List ℕ → ℕ × ListRing
list_enqueue r xs =
    if leb (length xs) r.1 then (length xs, (r.0 ++ xs, r.1 - length xs)) else (0, r)

abbrev list_dequeue : ListRing → ℕ → List ℕ × ListRing
list_dequeue r n = (take n r.0, (drop n r.0, r.1 + length (take n r.0)))

list_create-contents :
    (flags : List Flag) (n : ℕ) (r : ListRing)
    → list_create flags n ≡ some r
    → (r.0 ≡ []) × (r.1 + 1 ≡ n)
list_create-contents flags zero r e = cc
list_create-contents flags (suc n) r e = ground arith

list_enqueue_fits :
    (r : ListRing) (xs : List ℕ)
    → length xs ≤ r.1
    → ((list_enqueue r xs).0 ≡ length xs)
      × ((list_enqueue r xs).1.0 ≡ r.0 ++ xs)
      × ((list_enqueue r xs).1.1 + length xs ≡ r.1)
list_enqueue_fits r xs le = rw (le→leb (length xs) r.1 le) (refl, refl, omega arith)

list_enqueue_full : (r : ListRing) (xs : List ℕ) → r.1 < length xs → list_enqueue r xs ≡ (0, r)
list_enqueue_full r xs lt = rw (lt→leb (length xs) r.1 lt) refl

list_dequeue_one :
    (xs : List ℕ) (room x : ℕ) (ys : List ℕ)
    → xs ≡ x ∷ ys
    → ((list_dequeue (xs, room) 1).0 ≡ x ∷ [])
      × ((list_dequeue (xs, room) 1).1.0 ≡ ys)
      × ((list_dequeue (xs, room) 1).1.1 ≡ room + 1)
list_dequeue_one xs room x ys e = rw e (refl, refl, refl)

list_dequeue_none :
    (xs : List ℕ) (room n : ℕ) → xs ≡ [] → list_dequeue (xs, room) n ≡ ([], (xs, room))
list_dequeue_none xs room zero e = rw (e, add-zero) refl
list_dequeue_none xs room (suc n) e = rw (e, add-zero) refl

abbrev list_rings : RingLibrary
list_rings = record {
  Ring = ListRing;
  create = list_create;
  count = λ r. length r.0;
  enqueue_bulk = list_enqueue;
  dequeue_burst = list_dequeue;
  contents = λ r. r.0;
  room = λ r. r.1;
  create-contents = list_create-contents;
  count-contents = λ r. refl;
  enqueue_fits = list_enqueue_fits;
  enqueue_full = list_enqueue_full;
  dequeue_one = λ r x xs e. list_dequeue_one r.0 r.1 x xs e;
  dequeue_none = λ r n e. list_dequeue_none r.0 r.1 n e;
}

abbrev ring_of : List ℕ → ListRing
ring_of xs = (xs, 1023)

-- Two readers that have sent their requests, the second one twice.
abbrev two_sent : Card list_rings whole_ns
two_sent = record {
  to_nic = λ i. ring_of (if i == 0 then 0 ∷ [] else 1 ∷ 1 ∷ []);
  to_reader = λ i. ring_of [];
  req = λ i. record { stime = 10 * i; expire_time = 10 * i };
  stime = 0;
}

two_sent-AllOwn : AllOwn list_rings whole_ns 2 two_sent
two_sent-AllOwn i lt = elim (eq_or_ne i 0) [
  | inl e ↦ rw e (record { own = (refl, tt); fits = omega arith })
  | inr ne ↦
      let last : i ≡ 1 = omega (arith, ne) in
      rw last (record { own = (refl, (refl, tt)); fits = omega arith })
]

small_lane :
    lane list_rings whole_ns (rnic_thread list_rings whole_ns 2 3 two_sent) 1
    ≡ moved whole_ns 3 (lane list_rings whole_ns two_sent 1)
small_lane = rnic_thread-lane list_rings whole_ns 2 3 two_sent 1 two_sent-AllOwn (omega arith)

-- The buffer and the rings of all readers are there; the second thread cannot be created.
abbrev second_fails : ℕ → Reader
second_fails i = record { scratch = true; rings = true; thread = not (i == 1) }

second_fails-IsStarted : IsStarted true second_fails
second_fails-IsStarted = record { rings = λ i. refl; first = refl }

read_rdma-refused_example :
    watch (scratch 0) 3 (events_of (read_rdma true 3 second_fails)) fresh ≡ none
read_rdma-refused_example =
    read_rdma-refused true 3 second_fails (scratch 0) (omega arith) (omega arith)
      second_fails-IsStarted

-- The fourth ring cannot be created.
abbrev ring_3_fails : Calls
ring_3_fails = record {
  parse_args = true;
  eal_init = true;
  sizes = true;
  store = true;
  wants_csv = true;
  csv = true;
  rings = true;
  ring = λ i. not (i == 3);
  read_rdma = λ t. true;
}

main-left_example :
    held_after (ring 1) (main ring_3_fails 2 1).events false
    ≡ some (left_at_exit ring_3_fails 4 (ring 1))
main-left_example = main-left ring_3_fails 2 1 (ring 1) (omega arith)
