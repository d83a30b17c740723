-- ===== src/Rings/Refused.antt =====
-- `read_rdma` of custom-test/test4-nowait.c misuses its gate or its threads in every run that gets past
-- its allocations.
use mathlib.Core.Path.{subst}
use mio_xcena.Base.{
  ℕ, zero, suc, ◌+◌, ◌<◌, ◌^◌, ◌≡◌, Bool, true, false, Bool-cases, inl, inr, leb, Option, none,
  List, [], ◌∷◌, ◌++◌, u32, arith,
}
use mio_xcena.Monitor.{Handle, Event, create, open_gate, join, Watch, watch_event, watch, fresh}
use mio_xcena.Monitor.Steps.{put}
use mio_xcena.Plain.Resources.{join_all}
use mio_xcena.Rings.Run.{
  Reader, Exit, ready, failed, no_rings, Prepared, prepare, create_readers, events_of, join_out,
  run_readers, after_prepare, allocations, read_rdma,
}
use mio_xcena.Rings.Prepared.{
  After, Never, After-next, After-append, Never-append, Never-none, IsShut, allocations-IsShut,
  Counts, Left, Left-append, prepare-IsPrepared, IsStarted,
}

-- What the second loop leaves: thread `k` is not one that it creates.
abbrev Creates : (k upto : ℕ) → Bool → Option Watch → Type 0
Creates k upto true o = After (IsShut upto) o
Creates k upto false o = After Never o

create-IsShut :
    (h : Handle) (k i : ℕ) (w : Watch)
    → i < k
    → IsShut i w
    → After (IsShut (i + 1)) (watch_event h k w (create i))
create-IsShut h k i w lt s = ground arith

Creates-next :
    (h : Handle) (k upto : ℕ) (b : Bool) (P : Watch → Type 0) (x : Event) (ys : List Event)
    (w : Watch)
    → After P (watch_event h k w x)
    → ((v : Watch) → P v → Creates k upto b (watch h k ys v))
    → Creates k upto b (watch h k (x ∷ ys) w)
unfolding watch
Creates-next h k upto true P x ys w p next = After-next P (IsShut upto) _ (watch h k ys) p next
Creates-next h k upto false P x ys w p next = After-next P Never _ (watch h k ys) p next

create_readers-Creates :
    (h : Handle) (k left i created : ℕ) (reader : ℕ → Reader) (handles : ℕ → Bool) (w : Watch)
    → i + left ≡ k
    → i < created
    → created + left < 2 ^ 32
    → IsShut i w
    → let c = create_readers reader left i created handles in
      Creates k k c.complete (watch h k c.events w)
unfolding create_readers watch
create_readers-Creates h k zero i created reader handles w sum more small s =
    let there : i ≡ k = omega arith in rw (← there) s
create_readers-Creates h k (suc left) i created reader handles w sum more small s =
    let exact : u32 (created + 1) ≡ created + 1 = omega arith in
    elim (Bool-cases (reader i).thread) [
      | inr none_there ↦ rw none_there (ground arith)
      | inl there ↦
          rw (there, exact)
            (Creates-next h k k _ (IsShut (i + 1)) (create i) _ w
              (create-IsShut h k i w (omega arith) s)
              (λ v t.
                create_readers-Creates h k left (i + 1) (created + 1) reader (put handles i true) v
                  (omega arith) (omega arith) (omega arith) t))
    ]

-- The thread does not run.
abbrev IsIdle : Watch → Type 0
IsIdle w = w.running ≡ false

join-IsIdle :
    (h : Handle) (k i : ℕ) (w : Watch) → IsIdle w → After IsIdle (watch_event h k w (join i))
join-IsIdle h k i w e = ground arith

join_all-IsIdle :
    (h : Handle) (k left i : ℕ) (w : Watch)
    → IsIdle w
    → After IsIdle (watch h k (join_all left i) w)
unfolding watch join_all
join_all-IsIdle h k zero i w e = e
join_all-IsIdle h k (suc left) i w e =
    After-next IsIdle IsIdle _ (watch h k (join_all left (i + 1))) (join-IsIdle h k i w e)
      (λ v e. join_all-IsIdle h k left (i + 1) v e)

join-Never : (h : Handle) (k : ℕ) (w : Watch) → IsIdle w → After Never (watch h k (join k ∷ []) w)
unfolding watch
join-Never h k w e = ground arith

open-IsIdle :
    (h : Handle) (k n : ℕ) (w : Watch) → IsShut n w → After IsIdle (watch_event h k w (open_gate n))
open-IsIdle h k n w s = ground arith

-- The joins after the gate is opened.
joins-Never :
    (h : Handle) (k : ℕ) (w : Watch)
    → IsShut k w
    → After Never (watch h k (open_gate k ∷ (join_all k 0 ++ (join k ∷ []))) w)
unfolding watch
joins-Never h k w s =
    After-next IsIdle Never _ (watch h k (join_all k 0 ++ (join k ∷ []))) (open-IsIdle h k k w s)
      (λ v e.
        After-append h k IsIdle Never (join_all k 0) (join k ∷ []) v (join_all-IsIdle h k k 0 v e)
          (join-Never h k))

join_out-Never :
    (h : Handle) (k requests created : ℕ) (handles buffers : ℕ → Bool) (ret : ℕ)
    (before : List Event)
    → After Never (watch h k before fresh)
    → After Never
        (watch h k (events_of (join_out requests created handles buffers ret before)) fresh)
unfolding join_out
join_out-Never h k requests created handles buffers ret before p =
    elim (Bool-cases (leb created requests)) [
      | inl e ↦ rw e (Never-append h k before _ fresh p)
      | inr e ↦ rw e (Never-append h k before _ fresh p)
    ]

run_readers-Never :
    (h : Handle) (requests : ℕ) (reader : ℕ → Reader) (p : Prepared) (before : List Event)
    → 0 < requests
    → requests < 2 ^ 31
    → p.created ≡ requests
    → After (IsShut 0) (watch h requests before fresh)
    → After Never (watch h requests (events_of (run_readers requests reader p before)) fresh)
unfolding run_readers
run_readers-Never h requests reader p before pos small e shut =
    let c = create_readers reader requests 0 p.created (λ _. false) in
    let ran : (v : Watch)
        → IsShut 0 v
        → Creates requests requests c.complete (watch h requests c.events v) =
      λ v s.
        create_readers-Creates h requests requests 0 p.created reader (λ _. false) v (omega arith)
          (omega arith) (omega arith) s in
    elim (Bool-cases c.complete) [
      | inl all ↦ rw all (
          join_out-Never h requests requests 0 _ _ _ _ (
            After-append h requests (IsShut requests) Never (before ++ c.events) _ fresh
              (After-append h requests (IsShut 0) (IsShut requests) before c.events fresh shut
                (λ v s.
                  subst (λ b. Creates requests requests b (watch h requests c.events v)) all
                    (ran v s)))
              (joins-Never h requests)))
      | inr some_failed ↦ rw some_failed (
          join_out-Never h requests requests c.created _ _ _ _ (
            After-append h requests (IsShut 0) Never before c.events fresh shut (λ v s.
              subst (λ b. Creates requests requests b (watch h requests c.events v)) some_failed
                (ran v s))))
    ]

after_prepare-Never :
    (h : Handle) (requests : ℕ) (reader : ℕ → Reader) (p : Prepared) (e : Exit)
    (before : List Event)
    → 0 < requests
    → requests < 2 ^ 31
    → Counts requests e p.created
    → Left e (watch h requests before fresh)
    → After Never (watch h requests (events_of (after_prepare requests reader p e before)) fresh)
unfolding after_prepare
after_prepare-Never h requests reader p ready before pos small n left =
    run_readers-Never h requests reader p before pos small n left
after_prepare-Never h requests reader p failed before pos small n left =
    join_out-Never h requests requests p.created (λ _. false) p.buffers _ before left
after_prepare-Never h requests reader p no_rings before pos small n left = absurd n

-- For at least one request and fewer than 2^31, if `calloc` fails nowhere, all rings exist and the
-- first reader gets its buffer, `read_rdma` of test4-nowait.c does something wrong in every run,
-- whichever buffers can be allocated and whichever threads created: it waits at the gate for another
-- number of threads than it has started, or it joins `threads[requests]`, which it has never started.
pub read_rdma-refused :
    (copy_to_dst : Bool) (requests : ℕ) (reader : ℕ → Reader) (h : Handle)
    → 0 < requests
    → requests < 2 ^ 31
    → IsStarted copy_to_dst reader
    → watch h requests (events_of (read_rdma copy_to_dst requests reader)) fresh ≡ none
unfolding read_rdma
read_rdma-refused copy_to_dst requests reader h pos small g =
    let p = prepare copy_to_dst reader requests 0 0 (λ _. false) in
    let d =
      prepare-IsPrepared copy_to_dst reader h requests requests 0 requests (λ _. false) g
        (omega arith) (omega arith) in
    Never-none _ (
      after_prepare-Never h requests reader p p.exit (allocations ++ p.events) pos small d.counts (
        Left-append h requests p.exit allocations p.events fresh (allocations-IsShut h requests)
          d.left))
