-- ===== src/Rings.antt =====
-- custom-test/test4-nowait.c: the rings between the readers and the simulated network card, and the
-- card's thread, which polls one ring of each reader (`rnic_thread`). The rings are those of DPDK: an interface, with laws
-- that its documentation states. A request is named by its reader, `args[i].rdma_req` by `i`.
pub mod Lanes
pub mod Run
pub mod Prepared
pub mod Refused
pub mod Main
pub mod Left
mod Tests
use mio_xcena.Base.{
  ℕ, ◌+◌, ◌*◌, ◌^◌, ◌≤◌, ◌<◌, ◌≡◌, ◌==◌, if◌then◌else◌, Option, none, some, List, [], ◌∷◌, ◌++◌,
  length, for_range, Bool,
}
use mio_xcena.Nic.Clock.{Time}

-- RING_F_SP_ENQ and RING_F_SC_DEQ
pub data Flag : Type 0 where
  sp_enq sc_deq : Flag

-- `enum custom_ring_type`; `other` is any other value.
pub data RingType : Type 0 where
  sp_sc mp_sc mp_mc other : RingType

-- `struct rte_ring` and its functions. `contents` is what a ring holds, oldest first, and `room` how
-- many objects it still takes.
pub record RingLibrary : Type 1 where
  pub Ring : Type 0
  pub create : List Flag → (count : ℕ) → Option Ring
  pub count : Ring → ℕ
  pub enqueue_bulk : Ring → List ℕ → ℕ × Ring
  pub dequeue_burst : Ring → ℕ → List ℕ × Ring
  pub contents : Ring → List ℕ
  pub room : Ring → ℕ
  pub create-contents :
      (flags : List Flag) (n : ℕ) (r : Ring)
      → create flags n ≡ some r
      → (contents r ≡ []) × (room r + 1 ≡ n)
  pub count-contents : (r : Ring) → count r ≡ length (contents r)
  pub enqueue_fits :
      (r : Ring) (xs : List ℕ)
      → length xs ≤ room r
      → ((enqueue_bulk r xs).0 ≡ length xs)
        × (contents (enqueue_bulk r xs).1 ≡ contents r ++ xs)
        × (room (enqueue_bulk r xs).1 + length xs ≡ room r)
  pub enqueue_full : (r : Ring) (xs : List ℕ) → room r < length xs → enqueue_bulk r xs ≡ (0, r)
  pub dequeue_one :
      (r : Ring) (x : ℕ) (xs : List ℕ)
      → contents r ≡ x ∷ xs
      → ((dequeue_burst r 1).0 ≡ x ∷ [])
        × (contents (dequeue_burst r 1).1 ≡ xs)
        × (room (dequeue_burst r 1).1 ≡ room r + 1)
  pub dequeue_none : (r : Ring) (n : ℕ) → contents r ≡ [] → dequeue_burst r n ≡ ([], r)

-- `struct rdma_req`
pub record RdmaReq (D : Time) : Type 0 where
  pub stime : D.T
  pub expire_time : D.T

module _ (L : RingLibrary) where
  -- The flags that `rnic_ring_create` chooses.
  unfoldable pub rnic_ring_create : RingType → (count : ℕ) → Option L.Ring
  rnic_ring_create sp_sc count = L.create (sp_enq ∷ sc_deq ∷ []) count
  rnic_ring_create mp_sc count = L.create (sc_deq ∷ []) count
  rnic_ring_create mp_mc count = L.create [] count
  rnic_ring_create other count = none

  abbrev pub rnic_ring_enqueue : L.Ring → List ℕ → ℕ × L.Ring
  rnic_ring_enqueue r objs = L.enqueue_bulk r objs

  abbrev pub rnic_ring_empty : L.Ring → Bool
  rnic_ring_empty r = L.count r == 0

  abbrev pub rnic_ring_dequeue : L.Ring → (count : ℕ) → List ℕ × L.Ring
  rnic_ring_dequeue r count = L.dequeue_burst r count

-- The rings by reader, the requests, and the field `stime` of `struct nic`.
pub record Card (L : RingLibrary) (D : Time) : Type 0 where
  pub to_nic : ℕ → L.Ring
  pub to_reader : ℕ → L.Ring
  pub req : ℕ → RdmaReq D
  pub stime : D.T

abbrev pub set_ring {ℓ} : {A : Type ℓ} → (ℕ → A) → ℕ → A → ℕ → A
set_ring f i r j = if i == j then r else f j

-- `nk`, the granularity in KiB
abbrev pub granularity : ℕ
granularity = 4 * 4096

module _ (D : Time) where
  -- `delta_time_ns`, with Interface_RNICGen6x100G_bw
  abbrev pub delta_time_ns : D.T
  delta_time_ns =
      D.div (D.div (D.mul (D.of_nat granularity) (D.of_nat (10 ^ 9))) (D.of_nat (2 ^ 10)))
        (D.of_nat 12500)

  -- `78.125 * (nk)`; the literal is 625 / 8 exactly.
  abbrev pub transfer_time : D.T
  transfer_time = D.mul (D.div (D.of_nat 625) (D.of_nat 8)) (D.of_nat granularity)

  abbrev pub delay : RdmaReq D → RdmaReq D
  delay r = record r { expire_time = D.add r.expire_time transfer_time }

module _ (L : RingLibrary) (D : Time) where
  -- The part under `if (false)` never runs.
  unfoldable pub rdma_read : Card L D → (req : ℕ) → Card L D
  rdma_read c p = record c {
    req = set_ring c.req p (delay D (c.req p));
    stime = D.add c.stime (delta_time_ns D);
  }

  -- After the dequeue: `rc` is the length of the list, and only 1 goes on.
  unfoldable pub serve_dequeued : (i : ℕ) → List ℕ → Card L D → Card L D
  unfolding rdma_read
  serve_dequeued i [] c = c
  serve_dequeued i (p ∷ []) c =
      let c' = rdma_read c p in
      record c' {
        to_reader = set_ring c'.to_reader i (rnic_ring_enqueue L (c'.to_reader i) (p ∷ [])).1;
      }
  serve_dequeued i (p ∷ q ∷ ps) c = c

  -- The body of the loop over the readers.
  unfoldable pub serve_reader : (i : ℕ) → Card L D → Card L D
  unfolding serve_dequeued
  serve_reader i c =
      let taken = rnic_ring_dequeue L (c.to_nic i) 1 in
      if rnic_ring_empty L (c.to_nic i)
      then c
      else serve_dequeued i taken.0 (record c { to_nic = set_ring c.to_nic i taken.1 })

  -- `rnic_thread`, for as many rounds as it finds `dataplane_started` set.
  unfoldable pub rnic_thread : (num_readers rounds : ℕ) → Card L D → Card L D
  unfolding serve_reader
  rnic_thread num_readers rounds c =
      for_range rounds 0 (λ _ c. for_range num_readers 0 serve_reader c) c
