-- ===== src/Nic.antt =====
-- custom-test/test2-rdma-fin.c and test2-rdma3.c, `rnic_thread`: the simulated network card that
-- answers the requests of the readers, one by one. The arithmetic of `double` is an interface.
pub mod Clock
pub mod Link
pub mod Delay
pub mod Rounds
pub mod Tests
use mio_xcena.Base.{
  ℕ, zero, suc, ◌+◌, ◌*◌, ◌/◌, ◌^◌, Bool, true, false, ◌&&◌, ◌==◌, ltb, if◌then◌else◌, Option, none,
  some, List, [], ◌∷◌, u32, u64,
}
use mio_xcena.Args.{Cfg}
use mio_xcena.Nic.Clock.{Time}

-- Interface_RNICGen6x100G_bw
abbrev pub link_bw : ℕ
link_bw = 12500

-- Interface_RNICGen6x100G_bwmb / NVME_DEFAULT_MAX_AZ_SIZE / 1000
abbrev pub window_requests : ℕ
window_requests = 12500 * 2 ^ 20 / (128 * 2 ^ 10) / 1000

pub record RdmaReq (D : Time) : Type 0 where
  pub req_id : ℕ
  pub stime : D.T
  pub expire_time : D.T

-- The fields of `struct nic` that change, and the global `lag`.
pub record Nic (D : Time) : Type 0 where
  pub stime : D.T
  pub ntime : D.T
  pub lag : D.T

-- `service_ns`, which the code also calls `delta_time_ns`.
unfoldable pub service_ns : (D : Time) → Cfg → D.T
service_ns D c =
    D.div (D.mul (D.of_nat (u64 (c.req_per_blocks * c.block_bytes))) (D.of_nat 1000))
      (D.of_nat link_bw)

-- What the reader puts into its request before it enqueues it.
abbrev pub stamp_request : (D : Time) → ℕ → (t0 : D.T) → RdmaReq D
stamp_request D req t0 = record { req_id = req; stime = t0; expire_time = t0 }

-- What the card makes of a request: its own state, and the request with its `expire_time`.
pub record Answer (D : Time) : Type 0 where
  pub nic : Nic D
  pub req : RdmaReq D

abbrev pub answer : (D : Time) → Nic D → RdmaReq D → (expire_time : D.T) → Answer D
answer D n r t = record {
  nic = n;
  req = record { req_id = r.req_id; stime = r.stime; expire_time = t };
}

-- test2-rdma-fin.c: a window of `window_requests` services is opened at `start`.
abbrev pub open_window : (D : Time) → (delta start lag : D.T) → Nic D
open_window D delta start lag = record {
  stime = D.add start delta;
  ntime = D.add start (D.mul (D.of_nat window_requests) delta);
  lag = lag;
}

-- The delay that a request inside the window takes over.
abbrev pub window_expire : (D : Time) → Nic D → RdmaReq D → D.T
window_expire D n r =
    if D.ltb r.stime n.ntime && D.ltb D.zero n.lag then D.add r.expire_time n.lag else r.expire_time

-- The card was idle; the window is used up; the request goes into the window.
unfoldable pub calculate : (D : Time) → (delta : D.T) → Nic D → RdmaReq D → Answer D
calculate D delta n r =
    let us = D.of_nat 1000 in
    let lag = D.sub n.ntime r.stime in
    let inside =
      answer D (record { stime = D.add n.stime delta; ntime = n.ntime; lag = n.lag }) r
        (D.add (window_expire D n r) us) in
    let used_up =
      answer D (open_window D delta n.ntime lag) r (D.add (D.add r.expire_time lag) us) in
    let idle =
      answer D (open_window D delta r.stime D.zero) r (D.add (D.add r.expire_time us) us) in
    let busy = if D.ltb n.ntime (D.add n.stime delta) then used_up else inside in
    if D.ltb n.ntime r.stime then idle else busy

-- The card, the flags `response_ready` and the counter of the loop.
pub record Device (D : Time) : Type 0 where
  pub nic : Nic D
  pub response_ready : ℕ → Bool
  pub done : ℕ

abbrev pub dispatch : (D : Time) → Device D → Answer D → Device D
dispatch D d a = record {
  nic = a.nic;
  response_ready = λ i. if i == a.req.req_id then true else d.response_ready i;
  done = u32 (d.done + 1);
}

-- `rnic_thread` of test2-rdma-fin.c on the results of its calls of `mpsc_dequeue`: `none` if they do
-- not suffice for it to return.
unfoldable pub rnic_thread :
    (D : Time)
    → (delta : D.T) → (num_readers : ℕ) → List (Option (RdmaReq D))
    → Device D
    → Option (Device D)
rnic_thread D delta num_readers [] d = if ltb d.done num_readers then none else some d
rnic_thread D delta num_readers (none ∷ polls) d =
    if ltb d.done num_readers then rnic_thread D delta num_readers polls d else some d
rnic_thread D delta num_readers (some r ∷ polls) d =
    if ltb d.done num_readers
    then rnic_thread D delta num_readers polls (dispatch D d (calculate D delta d.nic r))
    else some d
