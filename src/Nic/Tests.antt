-- ===== src/Nic/Tests.antt =====
-- The card of custom-test/test2-rdma-fin.c and test2-rdma3.c, with natural numbers for times.
use mio_xcena.Base.{
  ℕ, ◌+◌, ◌-◌, ◌*◌, ◌/◌, ◌<◌, ◌≤◌, ◌≡◌, refl, false, ltb, ◌==◌, Option, none, some, List, [], ◌∷◌,
  arith,
}
use mio_xcena.Args.Tests.{small_cfg}
use mio_xcena.Nic.Clock.{Time}
use mio_xcena.Nic.{RdmaReq, Nic, Device, stamp_request, service_ns, rnic_thread}
use mio_xcena.Nic.Link.{Arrival, serve, Serialized, serve-Serialized}
use mio_xcena.Nic.Delay.{answers, AllDelayed, answers-AllDelayed}
use mio_xcena.Nic.Rounds.{answered, Returned, rnic_thread_lem}

pub mul_window : (n a : ℕ) → 0 < n → ltb (n * a) a ≡ false
mul_window n a pos = grind arith

abbrev pub whole_ns : Time
whole_ns = record {
  T = ℕ;
  zero = 0;
  of_nat = λ n. n;
  add = λ a b. a + b;
  sub = λ a b. a - b;
  mul = λ a b. a * b;
  div = λ a b. a / b;
  ltb = ltb;
  eqb = λ a b. a == b;
  ltb_irrefl = λ a. ground arith;
  ltb_asym = λ a b e. ground arith;
  le_trans = λ a b c e f. ground arith;
  eqb-le = λ a b e. ground arith;
  of_nat-nonneg = λ n. ground arith;
  mul-nonneg = λ a b e f. ground arith;
  div-nonneg = λ a b e f. ground arith;
  sub-nonneg = λ a b e. ground arith;
  add-le = λ a b e. ground arith;
  add-mono_right = λ a b c e. ground arith;
  add-mono_left = λ a b c e. ground arith;
  mul-window = λ n a pos e. mul_window n a pos;
}

abbrev request : (req t0 : ℕ) → RdmaReq whole_ns
request req t0 = stamp_request whole_ns req t0

abbrev unused : Nic whole_ns
unused = record { stime = 0; ntime = 0; lag = 0 }

abbrev arrivals : List (Arrival whole_ns)
arrivals =
    record { now = 5; req = request 0 4 }
    ∷ record { now = 6; req = request 1 5 }
    ∷ record { now = 90; req = request 2 88 }
    ∷ []

serve-Serialized_example : Serialized whole_ns 40 0 arrivals (serve whole_ns 40 unused arrivals)
serve-Serialized_example = serve-Serialized whole_ns 40 unused arrivals (refl, (refl, (refl, tt)))

answers-AllDelayed_example :
    AllDelayed whole_ns
      (request 0 4 ∷ request 1 5 ∷ [])
      (answers whole_ns (service_ns whole_ns small_cfg) unused (request 0 4 ∷ request 1 5 ∷ []))
answers-AllDelayed_example =
    answers-AllDelayed whole_ns small_cfg unused (request 0 4 ∷ request 1 5 ∷ [])
      (record { window = refl; lag = refl })

abbrev device : Device whole_ns
device = record { nic = unused; response_ready = λ _. false; done = 0 }

abbrev polls : List (Option (RdmaReq whole_ns))
polls = none ∷ some (request 1 5) ∷ none ∷ some (request 0 4) ∷ []

rnic_thread_lem_example :
    (2 ≤ answered polls → Returned whole_ns 6 2 (rnic_thread whole_ns 6 2 polls device))
    × (answered polls < 2 → rnic_thread whole_ns 6 2 polls device ≡ none)
rnic_thread_lem_example = rnic_thread_lem whole_ns 6 2 polls device (omega arith) refl
