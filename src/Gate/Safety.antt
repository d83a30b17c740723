-- ===== src/Gate/Safety.antt =====
-- No worker passes the gate of custom-test/test2-rdma-fin.c before as many as the main thread waits
-- for have arrived, and no thread sleeps through what it waits for.
use mio_xcena.Base.{
  ℕ, zero, suc, Bool-cases, ◌^◌, u32, sym, ap, ◌∙◌, ◌+◌, ◌<◌, ◌≤◌, ◌≡◌, refl, true, false, inl, inr,
  ◌==◌, leb, if◌then◌else◌, arith,
}
use native.Mathlib.Decide.{dec_lt}
use mio_xcena.Gate.{
  Worker, outside, sleeping, woken, passed, dozing, done, System, set_worker, wake_worker,
  broadcast, test_open, gate_wait, gate_open, gate_open_after_created, Step, arrive, look_again,
  call_open, call_after_created, count_again, Spurious, worker_wakes, main_wakes, init, Reach,
  start, later, disturbed,
}

-- 1 for a worker that has arrived.
abbrev pub arrived : Worker → ℕ
arrived outside = 0
arrived sleeping = 1
arrived woken = 1
arrived passed = 1

unfoldable pub count : ℕ → (ℕ → Worker) → ℕ
count zero f = 0
count (suc n) f = count n f + arrived (f n)

count-set_far :
    (n : ℕ) (f : ℕ → Worker) (i : ℕ) (w : Worker) → n ≤ i → count n (set_worker f i w) ≡ count n f
unfolding count
count-set_far zero f i w h = refl
count-set_far (suc n) f i w h = ground (arith, count-set_far n f i w)

count-set :
    (n : ℕ) (f : ℕ → Worker) (i : ℕ) (w : Worker)
    → i < n
    → count n (set_worker f i w) + arrived (f i) ≡ count n f + arrived w
unfolding count
count-set zero f i w h = absurd (omega arith)
count-set (suc n) f i w h = elim (dec_lt i n) [
  | yes below ↦ ground (arith, count-set n f i w below)
  | no last ↦ ground (arith, count-set_far n f i w)
]

count-outside : (n : ℕ) → count n (λ _. outside) ≡ 0
unfolding count
count-outside zero = refl
count-outside (suc n) = omega (arith, count-outside n)

pub count-le : (n : ℕ) (f : ℕ → Worker) → count n f ≤ n
unfolding count
count-le zero f = omega arith
count-le (suc n) f = ground (arith, count-le n f)

count-wake : (n : ℕ) (f : ℕ → Worker) → count n (λ i. wake_worker (f i)) ≡ count n f
unfolding count
count-wake zero f = refl
count-wake (suc n) f = ground (arith, count-wake n f)

pub record Inv (spawned : ℕ) (s : System) : Type 0 where
  pub counted : s.gate.ready ≡ count spawned s.worker
  pub opened : s.gate.is_open ≡ true → s.gate.total ≤ s.gate.ready
  pub closed : (i : ℕ) → s.worker i ≡ passed → s.gate.is_open ≡ true
  pub finished : s.gate.is_open ≡ true → s.main ≡ done
  pub ended : s.main ≡ done → s.gate.is_open ≡ true
  -- Nobody sleeps through what he waits for.
  pub shut : (i : ℕ) → s.worker i ≡ sleeping → s.gate.is_open ≡ false
  pub short_of : s.main ≡ dozing → s.gate.ready < s.gate.total

test_open-Inv :
    {n : ℕ} {s : System} (i : ℕ) (before : Worker)
    → i < n
    → s.worker i ≡ before
    → arrived before ≡ 1
    → Inv n s
    → Inv n (test_open i s)
test_open-Inv {n} {s} i before lt e in_count v = record {
  counted = ground (arith, v.counted, count-set n s.worker i w lt);
  opened = v.opened;
  closed = λ j p. ground (arith, v.closed j);
  finished = v.finished;
  ended = v.ended;
  shut = λ j p. ground (arith, v.shut j);
  short_of = v.short_of;
}
  where
    w : Worker
    w = if s.gate.is_open then passed else sleeping

broadcast-Inv : {n : ℕ} {s : System} → Inv n s → Inv n (broadcast s)
broadcast-Inv {n} {s} v = record {
  counted = v.counted ∙ sym (count-wake n s.worker);
  opened = v.opened;
  closed = λ j p. ground (arith, v.closed j);
  finished = λ o. ground (arith, v.finished o);
  ended = λ o. ground (arith, v.ended);
  shut = λ j p. ground arith;
  short_of = λ o. ground arith;
}

gate_open-Inv : {n : ℕ} {s : System} → Inv n s → s.gate.is_open ≡ false → Inv n (gate_open s)
unfolding gate_open
gate_open-Inv {n} {s} v closed_yet = elim (Bool-cases (leb s.gate.total s.gate.ready)) [
  | inl all ↦ rw all (record {
    counted = v.counted ∙ sym (count-wake n s.worker);
    opened = λ o. ground arith;
    closed = λ i p. refl;
    finished = λ o. refl;
    ended = λ o. refl;
    shut = λ i p. ground arith;
    short_of = λ o. cc;
  })
  | inr few ↦ rw few (record {
    counted = v.counted;
    opened = v.opened;
    closed = v.closed;
    finished = λ o. cc;
    ended = λ o. cc;
    shut = v.shut;
    short_of = λ o. ground arith;
  })
]

init-Inv : (n total : ℕ) → Inv n (init total)
init-Inv n total = record {
  counted = sym (count-outside n);
  opened = λ o. cc;
  closed = λ i p. cc;
  finished = λ o. cc;
  ended = λ o. cc;
  shut = λ i p. refl;
  short_of = λ o. cc;
}

count-arrive :
    (n ready : ℕ) (f : ℕ → Worker) (i : ℕ) (w : Worker)
    → n < 2 ^ 32
    → i < n
    → f i ≡ outside
    → arrived w ≡ 1
    → ready ≡ count n f
    → (u32 (ready + 1) ≡ ready + 1) × (u32 (ready + 1) ≡ count n (set_worker f i w))
count-arrive n ready f i w few lt e is_in counted = (rise, rise ∙ sym next)
  where
    next : count n (set_worker f i w) ≡ ready + 1
    next = ground (arith, counted, is_in, count-set n f i w lt)

    rise : u32 (ready + 1) ≡ ready + 1
    rise = omega (arith, next, count-le n (set_worker f i w))

arrive-Inv :
    {n : ℕ} {s : System} (i : ℕ)
    → n < 2 ^ 32
    → i < n
    → s.worker i ≡ outside
    → Inv n s
    → Inv n (gate_wait i s)
unfolding gate_wait
arrive-Inv {n} {s} i few lt e v = elim (Bool-cases (u32 (s.gate.ready + 1) == s.gate.total)) [
  | inl all ↦
      let (rise, next) =
        count-arrive n s.gate.ready (λ j. wake_worker (s.worker j)) i w few lt (ap wake_worker e)
          is_in (v.counted ∙ sym (count-wake n s.worker)) in
      rw all (record {
        counted = next;
        opened = λ o. omega (arith, v.opened o, rise);
        closed = λ j p. ground (arith, v.closed j);
        finished = λ o. ground (arith, v.finished o);
        ended = λ o. ground (arith, v.ended);
        shut = λ j p. ground arith;
        short_of = λ o. ground arith;
      })
  | inr few_yet ↦
      let (rise, next) = count-arrive n s.gate.ready s.worker i w few lt e is_in v.counted in
      rw few_yet (record {
        counted = next;
        opened = λ o. omega (arith, v.opened o, rise);
        closed = λ j p. ground (arith, v.closed j);
        finished = v.finished;
        ended = v.ended;
        shut = λ j p. ground (arith, v.shut j);
        short_of = λ o. ground (arith, v.short_of o, rise, few_yet);
      })
]
  where
    w : Worker
    w = if s.gate.is_open then passed else sleeping

    is_in : arrived w ≡ 1
    is_in = ground arith

Step-Inv : {n : ℕ} {s t : System} → n < 2 ^ 32 → Step n s t → Inv n s → Inv n t
unfolding gate_open_after_created
Step-Inv few (arrive i lt e) v = arrive-Inv i few lt e v
Step-Inv few (look_again i lt e) v = test_open-Inv i woken lt e refl v
Step-Inv {s} few (call_open e) v = gate_open-Inv v (ground (arith, v.finished))
Step-Inv {n} {s} few (call_after_created created e) v =
    let shut : s.gate.is_open ≡ false = ground (arith, v.finished) in
    let counted : Inv n (record s { gate = record s.gate { total = created } }) = record {
      counted = v.counted;
      opened = λ o. cc;
      closed = v.closed;
      finished = v.finished;
      ended = v.ended;
      shut = v.shut;
      short_of = λ o. cc;
    } in
    gate_open-Inv counted shut
Step-Inv {s} few (count_again e) v = gate_open-Inv v (ground (arith, v.finished))

Spurious-Inv : {n : ℕ} {s t : System} → Spurious n s t → Inv n s → Inv n t
Spurious-Inv {n} {s} (worker_wakes i lt e) v = record {
  counted = ground (arith, v.counted, count-set n s.worker i woken lt);
  opened = v.opened;
  closed = λ j p. ground (arith, v.closed j);
  finished = v.finished;
  ended = v.ended;
  shut = λ j p. ground (arith, v.shut j);
  short_of = v.short_of;
}
Spurious-Inv (main_wakes e) v = record {
  counted = v.counted;
  opened = v.opened;
  closed = v.closed;
  finished = λ o. ground (arith, v.finished o);
  ended = λ o. cc;
  shut = v.shut;
  short_of = λ o. cc;
}

pub Reach-Inv : {n total : ℕ} {s : System} → n < 2 ^ 32 → Reach n total s → Inv n s
Reach-Inv {n} {total} few start = init-Inv n total
Reach-Inv few (later r st) = Step-Inv few st (Reach-Inv few r)
Reach-Inv few (disturbed r st) = Spurious-Inv st (Reach-Inv few r)

-- In every reachable state, if some worker has passed the gate then the gate is open, and at least
-- `total` of the workers have arrived.
pub passed_only_when_full :
    {n total : ℕ} {s : System}
    → n < 2 ^ 32
    → Reach n total s
    → (i : ℕ) → s.worker i ≡ passed
    → (s.gate.is_open ≡ true) × (s.gate.total ≤ count n s.worker)
passed_only_when_full few r i e =
    let v = Reach-Inv few r in let o = v.closed i e in (o, omega (arith, v.opened o, v.counted))
