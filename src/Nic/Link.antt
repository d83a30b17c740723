-- ===== src/Nic/Link.antt =====
-- custom-test/test2-rdma3.c, `rnic_thread`: the card as a link that carries one transfer after the
-- other.
use mathlib.Core.Path.{subst}
use mio_xcena.Base.{◌≡◌, ◌⊎◌, inl, inr, refl, if◌then◌else◌, Bool-cases, List, [], ◌∷◌}
use mio_xcena.Nic.Clock.{Time, AtMost}
use mio_xcena.Nic.{RdmaReq, Nic, Answer, answer}

-- test2-rdma3.c: from the card's first free moment on, which is `now` if it has never been used.
abbrev pub carry : (D : Time) → (service now free : D.T) → RdmaReq D → Answer D
carry D service now free r =
    let start = if D.ltb free now then now else free in
    answer D
      (record {
        stime = start;
        ntime = D.add start service;
        lag = if D.ltb free now then D.sub now free else D.zero;
      })
      r (D.add start service)

unfoldable pub calculate : (D : Time) → (service now : D.T) → Nic D → RdmaReq D → Answer D
calculate D service now n r = carry D service now (if D.eqb n.ntime D.zero then now else n.ntime) r

-- A request as the card finds it: the time of the call of `now_ns`, and the request.
pub record Arrival (D : Time) : Type 0 where
  pub now : D.T
  pub req : RdmaReq D

-- The answers to the requests that the card takes from its queue, in order.
unfoldable pub serve : (D : Time) → (service : D.T) → Nic D → List (Arrival D) → List (Answer D)
unfolding calculate
serve D service n [] = []
serve D service n (a ∷ rest) =
    let r = calculate D service a.now n a.req in r ∷ serve D service r.nic rest

-- The transfers are carried one after the other by a link that is free from `free` on, without delay:
-- each starts at the later of its arrival and the end of the one before, and ends `service` later.
abbrev pub Serialized :
    (D : Time) → (service free : D.T) → List (Arrival D) → List (Answer D) → Type 0
Serialized D service free [] [] = Unit
Serialized D service free [] (r ∷ rs) = ⊥
Serialized D service free (a ∷ rest) [] = ⊥
Serialized D service free (a ∷ rest) (r ∷ rs) =
    AtMost D a.now r.nic.stime
    × AtMost D free r.nic.stime
    × ((r.nic.stime ≡ a.now) ⊎ (r.nic.stime ≡ free))
    × (r.req.expire_time ≡ D.add r.nic.stime service)
    × Serialized D service r.req.expire_time rest rs

-- Every call of `now_ns` gives a time that is not negative.
abbrev pub Started : (D : Time) → List (Arrival D) → Type 0
Started D [] = Unit
Started D (a ∷ rest) = AtMost D D.zero a.now × Started D rest

carry-starts :
    (D : Time) (service now free : D.T) (r : RdmaReq D)
    → let start = (carry D service now free r).nic.stime in
      AtMost D now start × AtMost D free start × ((start ≡ now) ⊎ (start ≡ free))
carry-starts D service now free r = elim (Bool-cases (D.ltb free now)) [
  | inl late ↦ rw late (D.ltb_irrefl now, D.ltb_asym free now late, inl refl)
  | inr early ↦ rw early (early, D.ltb_irrefl free, inr refl)
]

calculate-starts :
    (D : Time) (service now : D.T) (n : Nic D) (r : RdmaReq D)
    → AtMost D D.zero now
    → let a = calculate D service now n r in
      AtMost D now a.nic.stime
      × AtMost D n.ntime a.nic.stime
      × ((a.nic.stime ≡ now) ⊎ (a.nic.stime ≡ n.ntime))
      × (a.req.expire_time ≡ D.add a.nic.stime service)
      × (a.nic.ntime ≡ a.req.expire_time)
unfolding calculate
calculate-starts D service now n r pos = elim (Bool-cases (D.eqb n.ntime D.zero)) [
  | inl unused ↦
      rw (unused, D.ltb_irrefl now)
        (
          D.ltb_irrefl now,
          D.le_trans n.ntime D.zero now (D.eqb-le n.ntime D.zero unused) pos,
          inl refl,
          refl,
          refl,
        )
  | inr used ↦
      let (arrived, free, one) = carry-starts D service now n.ntime r in
      rw used (arrived, free, one, refl, refl)
]

-- Whatever the card's state, if no time is negative, the transfers of `rnic_thread` of test2-rdma3.c
-- are serialized: none starts before its request is found or before the link is free, each starts at
-- one of these moments, and each ends, at its `expire_time`, one service time later.
pub serve-Serialized :
    (D : Time) (service : D.T) (n : Nic D) (arrivals : List (Arrival D))
    → Started D arrivals
    → Serialized D service n.ntime arrivals (serve D service n arrivals)
unfolding serve
serve-Serialized D service n [] started = tt
serve-Serialized D service n (a ∷ rest) (pos, later) =
    let r = calculate D service a.now n a.req in
    let (arrived, free, one, ends, next) = calculate-starts D service a.now n a.req pos in
    (
      arrived,
      free,
      one,
      ends,
      subst (λ t. Serialized D service t rest (serve D service r.nic rest)) next
          (serve-Serialized D service r.nic rest later),
    )
