-- ===== src/Rings/Lanes.antt =====
-- The card's thread of custom-test/test4-nowait.c, reader by reader: what one round does to the two rings
-- and the request of a reader, and what any number of rounds delivers.
use mio_xcena.Base.{
  ℕ, zero, suc, ◌+◌, ◌-◌, ◌≤◌, ◌<◌, ◌≡◌, refl, ◌≢◌, ap, sym, ◌∙◌, inl, inr, eq_or_ne, ==_ne,
  ==_refl, if◌then◌else◌, ltb, lt→ltb, le→ltb, List, [], ◌∷◌, ◌++◌, length, take, drop, arith,
  for_range, for_range_zero,
}
use mathlib.Core.List.{append_assoc, append-nil}
use mio_xcena.Nic.Clock.{Time}
use mio_xcena.Rings.{
  RingLibrary, RdmaReq, Card, set_ring, delay, delta_time_ns, rdma_read, serve_dequeued,
  serve_reader, rnic_thread,
}

-- What concerns one reader: the requests that it has sent, those that it can receive, how many more
-- it can receive, and the state of its own request.
pub record Lane (D : Time) : Type 0 where
  pub waiting : List ℕ
  pub answered : List ℕ
  pub space : ℕ
  pub req : RdmaReq D

abbrev pub lane : (L : RingLibrary) (D : Time) → Card L D → ℕ → Lane D
lane L D c i = record {
  waiting = L.contents (c.to_nic i);
  answered = L.contents (c.to_reader i);
  space = L.room (c.to_reader i);
  req = c.req i;
}

-- One request is moved, if there is one.
abbrev pub move_one : (D : Time) → List ℕ → Lane D → Lane D
move_one D [] l = l
move_one D (p ∷ ps) l = record {
  waiting = ps;
  answered = l.answered ++ (p ∷ []);
  space = l.space - 1;
  req = delay D l.req;
}

abbrev pub serve_lane : (D : Time) → Lane D → Lane D
serve_lane D l = move_one D l.waiting l

abbrev AllAre : ℕ → List ℕ → Type 0
AllAre i [] = Unit {0}
AllAre i (p ∷ ps) = (p ≡ i) × AllAre i ps

-- The reader has sent its own request only, and there is room for what it has sent.
pub record IsOwn {D : Time} (i : ℕ) (l : Lane D) : Type 0 where
  pub own : AllAre i l.waiting
  pub fits : length l.waiting ≤ l.space

module _ (L : RingLibrary) (D : Time) where
  serve_reader-empty :
      (i : ℕ) (c : Card L D) → L.contents (c.to_nic i) ≡ [] → serve_reader L D i c ≡ c
  unfolding serve_reader
  serve_reader-empty i c e =
      let none_there : L.count (c.to_nic i) ≡ 0 = L.count-contents (c.to_nic i) ∙ ap length e in
      rw none_there refl

  -- A reader that has sent something.
  abbrev served : (i p : ℕ) → Card L D → Card L D
  served i p c = record {
    to_nic = set_ring c.to_nic i (L.dequeue_burst (c.to_nic i) 1).1;
    to_reader = set_ring c.to_reader i (L.enqueue_bulk (c.to_reader i) (p ∷ [])).1;
    req = set_ring c.req p (delay D (c.req p));
    stime = D.add c.stime (delta_time_ns D);
  }

  serve_reader-some :
      (i p : ℕ) (ps : List ℕ) (c : Card L D)
      → L.contents (c.to_nic i) ≡ p ∷ ps
      → serve_reader L D i c ≡ served i p c
  unfolding serve_reader serve_dequeued rdma_read
  serve_reader-some i p ps c e =
      let there : L.count (c.to_nic i) ≡ suc (length ps) =
        L.count-contents (c.to_nic i) ∙ ap length e in
      rw (there, (L.dequeue_one (c.to_nic i) p ps e).0, ==_ne (suc (length ps)) 0 (omega arith))
        refl

  -- The lane of the reader that is served, and that of another one.
  served-lane :
      (i : ℕ) (ps : List ℕ) (c : Card L D)
      → L.contents (c.to_nic i) ≡ i ∷ ps
      → 0 < L.room (c.to_reader i)
      → lane L D (served i i c) i ≡ move_one D (i ∷ ps) (lane L D c i)
  served-lane i ps c e more =
      let (d0, d1, d2) = L.dequeue_one (c.to_nic i) i ps e in
      let (e0, e1, e2) = L.enqueue_fits (c.to_reader i) (i ∷ []) (omega arith) in
      let less : L.room (L.enqueue_bulk (c.to_reader i) (i ∷ [])).1 ≡ L.room (c.to_reader i) - 1 =
        omega (arith, e2) in
      rw (==_refl i, d1, e1, less) refl

  serve_reader-same :
      (i : ℕ) (w : List ℕ) (c : Card L D)
      → L.contents (c.to_nic i) ≡ w
      → AllAre i w
      → length w ≤ L.room (c.to_reader i)
      → lane L D (serve_reader L D i c) i ≡ move_one D w (lane L D c i)
  serve_reader-same i [] c e own fits = rw (serve_reader-empty i c e) refl
  serve_reader-same i (p ∷ ps) c e own fits =
      rw (serve_reader-some i p ps c e, own.0)
        (served-lane i ps c (e ∙ ap (λ x. x ∷ ps) own.0) (omega (arith, fits)))

  serve_reader-other :
      (i j : ℕ) (w : List ℕ) (c : Card L D)
      → L.contents (c.to_nic i) ≡ w
      → AllAre i w
      → i ≢ j
      → lane L D (serve_reader L D i c) j ≡ lane L D c j
  serve_reader-other i j [] c e own ne = rw (serve_reader-empty i c e) refl
  serve_reader-other i j (p ∷ ps) c e own ne =
      rw (serve_reader-some i p ps c e, own.0, ==_ne i j ne) refl

  -- Every reader below `n` has sent its own request only, and has room for the answers.
  abbrev pub AllOwn : ℕ → Card L D → Type 0
  AllOwn n c = (i : ℕ) → i < n → IsOwn i (lane L D c i)

  -- The readers below `done` have been served in this round.
  abbrev Served : (n : ℕ) → Card L D → (done : ℕ) → Card L D → Type 0
  Served n c done d =
      (j : ℕ) → lane L D d j ≡ (if ltb j done then serve_lane D (lane L D c j) else lane L D c j)

  serve-Served :
      (n : ℕ) (c : Card L D) (i : ℕ) (d : Card L D)
      → AllOwn n c
      → i < n
      → Served n c i d
      → Served n c (i + 1) (serve_reader L D i d)
  serve-Served n c i d own lt so_far j = elim (eq_or_ne i j) [
    | inl e ↦
        rw (← e, lt→ltb i (i + 1) (omega arith))
          (serve_reader-same i (L.contents (d.to_nic i)) d refl at.own at.fits
            ∙ ap (serve_lane D) untouched)
    | inr ne ↦
        let same : ltb j (i + 1) ≡ ltb j i = ground arith in
        rw same (serve_reader-other i j (L.contents (d.to_nic i)) d refl at.own ne ∙ so_far j)
  ]
    where
      untouched : lane L D d i ≡ lane L D c i
      untouched = so_far i ∙ rw (le→ltb i i (omega arith)) refl

      at : IsOwn i (lane L D d i)
      at = rw untouched (own i lt)

  -- One round of `rnic_thread`.
  round-lane :
      (n : ℕ) (c : Card L D) (i : ℕ)
      → AllOwn n c
      → i < n
      → lane L D (for_range n 0 (serve_reader L D) c) i ≡ serve_lane D (lane L D c i)
  round-lane n c i own lt =
      for_range_zero (Served n c) (serve_reader L D) n (λ at d l s. serve-Served n c at d own l s) c
        (λ j. rw (le→ltb j 0 (omega arith)) refl) i
      ∙ rw (lt→ltb i n lt) refl

  move_one-IsOwn :
      (i : ℕ) (w a : List ℕ) (space : ℕ) (r : RdmaReq D)
      → AllAre i w
      → length w ≤ space
      → IsOwn {D = D} i
          (serve_lane D (record { waiting = w; answered = a; space = space; req = r }))
  move_one-IsOwn i [] a space r own fits = record { own = own; fits = fits }
  move_one-IsOwn i (p ∷ ps) a space r own fits = record { own = own.1; fits = omega (arith, fits) }

  round-AllOwn : (n : ℕ) (c : Card L D) → AllOwn n c → AllOwn n (for_range n 0 (serve_reader L D) c)
  round-AllOwn n c own i lt = rw (round-lane n c i own lt) (
      let o = own i lt in
      let l = lane L D c i in move_one-IsOwn i l.waiting l.answered l.space l.req o.own o.fits)

-- A request that was answered `n` times.
abbrev pub delayed : (D : Time) → (n : ℕ) → RdmaReq D → RdmaReq D
delayed D zero r = r
delayed D (suc n) r = delayed D n (delay D r)

-- A lane after `rounds` rounds.
abbrev pub moved : (D : Time) → (rounds : ℕ) → Lane D → Lane D
moved D rounds l =
    let taken = take rounds l.waiting in
    record {
      waiting = drop rounds l.waiting;
      answered = l.answered ++ taken;
      space = l.space - length taken;
      req = delayed D (length taken) l.req;
    }

moved-zero : (D : Time) (l : Lane D) → l ≡ moved D 0 l
moved-zero D l =
    let none_gone : l.space - 0 ≡ l.space = omega arith in
    rw (append-nil l.answered, none_gone) refl

moved-nil :
    (D : Time) (rounds : ℕ) (a : List ℕ) (space : ℕ) (r : RdmaReq D)
    → let l : Lane D = record { waiting = []; answered = a; space = space; req = r } in
      moved D rounds l ≡ l
moved-nil D zero a space r =
    sym (moved-zero D (record { waiting = []; answered = a; space = space; req = r }))
moved-nil D (suc rounds) a space r =
    sym (moved-zero D (record { waiting = []; answered = a; space = space; req = r }))

moved-suc :
    (D : Time) (rounds : ℕ) (w a : List ℕ) (space : ℕ) (r : RdmaReq D)
    → let l : Lane D = record { waiting = w; answered = a; space = space; req = r } in
      moved D rounds (serve_lane D l) ≡ moved D (suc rounds) l
moved-suc D rounds [] a space r =
    moved-nil D rounds a space r ∙ sym (moved-nil D (suc rounds) a space r)
moved-suc D rounds (p ∷ ps) a space r =
    let n = length (take rounds ps) in
    let less : space - 1 - n ≡ space - suc n = omega arith in
    rw (append_assoc a (p ∷ []) (take rounds ps), less) refl

module _ (L : RingLibrary) (D : Time) where
  rounds-lane :
      (num_readers rounds at : ℕ) (c : Card L D) (i : ℕ)
      → AllOwn L D num_readers c
      → i < num_readers
      → lane L D (for_range rounds at (λ _ c. for_range num_readers 0 (serve_reader L D) c) c) i
        ≡ moved D rounds (lane L D c i)
  unfolding for_range
  rounds-lane num_readers zero at c i own lt = moved-zero D (lane L D c i)
  rounds-lane num_readers (suc rounds) at c i own lt =
      let l = lane L D c i in
      rounds-lane num_readers rounds (at + 1) (for_range num_readers 0 (serve_reader L D) c) i
        (round-AllOwn L D num_readers c own) lt
      ∙ ap (moved D rounds) (round-lane L D num_readers c i own lt)
      ∙ moved-suc D rounds l.waiting l.answered l.space l.req

  -- For every reader that the card's thread was told of, if each of them has sent only its own
  -- request, and its answering ring has room for what it has sent: after any number of rounds, as
  -- many of its requests as there were rounds (or all of them) have gone from its sending ring to the
  -- end of its answering ring, in order, and its `expire_time` has been put off once for each of them.
  pub rnic_thread-lane :
      (num_readers rounds : ℕ) (c : Card L D) (i : ℕ)
      → AllOwn L D num_readers c
      → i < num_readers
      → lane L D (rnic_thread L D num_readers rounds c) i ≡ moved D rounds (lane L D c i)
  unfolding rnic_thread
  rnic_thread-lane num_readers rounds c i own lt = rounds-lane num_readers rounds 0 c i own lt
