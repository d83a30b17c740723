-- ===== src/Nic/Delay.antt =====
-- The delays that `rnic_thread` of custom-test/test2-rdma-fin.c gives to requests.
use mio_xcena.Base.{◌≡◌, refl, ◌&&◌, Bool-cases, inl, inr, List, [], ◌∷◌, arith}
use mio_xcena.Args.{Cfg}
use mio_xcena.Nic.Clock.{Time, AtMost}
use mio_xcena.Nic.{
  RdmaReq, Nic, Answer, answer, open_window, window_requests, window_expire, calculate, service_ns,
}

-- What the card keeps: its window has not ended before it began, and the lag is not negative.
pub record IsNic (D : Time) (n : Nic D) : Type 0 where
  pub window : AtMost D n.stime n.ntime
  pub lag : AtMost D D.zero n.lag

module _ (D : Time) where
  service_ns-nonneg : (c : Cfg) → AtMost D D.zero (service_ns D c)
  unfolding service_ns
  service_ns-nonneg c =
      D.div-nonneg _ _ (D.mul-nonneg _ _ (D.of_nat-nonneg _) (D.of_nat-nonneg _))
        (D.of_nat-nonneg _)

  open_window-IsNic :
      (delta start lag : D.T)
      → AtMost D D.zero delta
      → AtMost D D.zero lag
      → IsNic D (open_window D delta start lag)
  open_window-IsNic delta start lag pos lag_pos = record {
    window =
        D.add-mono_right start delta (D.mul (D.of_nat window_requests) delta)
          (D.mul-window window_requests delta (omega arith) pos);
    lag = lag_pos;
  }

  -- A request keeps its identity, and is delayed by at least 1000.
  pub record IsDelayed (r q : RdmaReq D) : Type 0 where
    pub same_id : q.req_id ≡ r.req_id
    pub same_stime : q.stime ≡ r.stime
    pub delay : AtMost D (D.add r.expire_time (D.of_nat 1000)) q.expire_time

  window_expire-ge :
      (n : Nic D) (r : RdmaReq D)
      → AtMost D D.zero n.lag
      → AtMost D r.expire_time (window_expire D n r)
  window_expire-ge n r pos = elim (Bool-cases (D.ltb r.stime n.ntime && D.ltb D.zero n.lag)) [
    | inl e ↦ rw e (D.add-le r.expire_time n.lag pos)
    | inr e ↦ rw e (D.ltb_irrefl r.expire_time)
  ]

  record IsAnswer (r : RdmaReq D) (a : Answer D) : Type 0 where
    nic : IsNic D a.nic
    req : IsDelayed r a.req

  delayed :
      (n : Nic D) (r : RdmaReq D) (t : D.T)
      → IsNic D n
      → AtMost D r.expire_time t
      → IsAnswer r (answer D n r (D.add t (D.of_nat 1000)))
  delayed n r t ok le = record {
    nic = ok;
    req = record {
      same_id = refl;
      same_stime = refl;
      delay = D.add-mono_left r.expire_time t (D.of_nat 1000) le;
    };
  }

  calculate-IsAnswer :
      (delta : D.T) (n : Nic D) (r : RdmaReq D)
      → AtMost D D.zero delta
      → IsNic D n
      → IsAnswer r (calculate D delta n r)
  unfolding calculate
  calculate-IsAnswer delta n r pos ok = elim (Bool-cases (D.ltb n.ntime r.stime)) [
    | inl idle ↦ rw idle (
        delayed (open_window D delta r.stime D.zero) r _
          (open_window-IsNic delta r.stime D.zero pos (D.ltb_irrefl D.zero))
          (D.add-le _ _ (D.of_nat-nonneg 1000)))
    | inr busy ↦ rw busy (elim (Bool-cases (D.ltb n.ntime (D.add n.stime delta))) [
      | inl used_up ↦
          let lag_pos = D.sub-nonneg n.ntime r.stime busy in
          rw used_up
            (delayed _ r _ (open_window-IsNic delta n.ntime _ pos lag_pos) (D.add-le _ _ lag_pos))
      | inr inside ↦
          rw inside
            (delayed _ r _ (record { window = inside; lag = ok.lag }) (window_expire-ge n r ok.lag))
    ])
  ]

  -- The requests as the card leaves them, in the order in which it takes them.
  unfoldable pub answers : (delta : D.T) → Nic D → List (RdmaReq D) → List (RdmaReq D)
  unfolding calculate
  answers delta n [] = []
  answers delta n (r ∷ rs) = let a = calculate D delta n r in a.req ∷ answers delta a.nic rs

  abbrev pub AllDelayed : List (RdmaReq D) → List (RdmaReq D) → Type 0
  AllDelayed [] [] = Unit
  AllDelayed [] (q ∷ qs) = ⊥
  AllDelayed (r ∷ rs) [] = ⊥
  AllDelayed (r ∷ rs) (q ∷ qs) = IsDelayed r q × AllDelayed rs qs

  answers-AllDelayed-from :
      (delta : D.T) (n : Nic D) (rs : List (RdmaReq D))
      → AtMost D D.zero delta
      → IsNic D n
      → AllDelayed rs (answers delta n rs)
  unfolding answers
  answers-AllDelayed-from delta n [] pos ok = tt
  answers-AllDelayed-from delta n (r ∷ rs) pos ok =
      let a = calculate-IsAnswer delta n r pos ok in
      (a.req, answers-AllDelayed-from delta (calculate D delta n r).nic rs pos a.nic)

  -- For every configuration, from a card whose window has not ended before it began and whose lag is
  -- not negative (both are 0 at first), `rnic_thread` of test2-rdma-fin.c leaves the number and the
  -- start time of each request alone and moves its `expire_time` on by at least 1000.
  pub answers-AllDelayed :
      (c : Cfg) (n : Nic D) (rs : List (RdmaReq D))
      → IsNic D n
      → AllDelayed rs (answers (service_ns D c) n rs)
  answers-AllDelayed c n rs ok = answers-AllDelayed-from _ n rs (service_ns-nonneg c) ok
