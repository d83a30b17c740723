-- ===== src/Phase/Work.antt =====
-- How much of the first phase of a sweep of custom-test/test2-rdma-fin.c is done, as a number.
use mio_xcena.Base.{
  ℕ, ◌+◌, ◌*◌, ◌≤◌, ◌<◌, ◌≡◌, refl, Bool, true, if◌then◌else◌, total, total-set, ==_refl, ==_ne,
  length, arith,
}
use mio_xcena.Queue.System.{Stage, idle, cleared, swapped, sent, set_stage}
use mio_xcena.Nic.Clock.{Time}
use mio_xcena.Phase.{Phase, Card, polling, calculating, delivering, set}

-- How far a reader has come.
abbrev pub rank : Stage → ℕ
rank idle = 0
rank cleared = 1
rank (swapped _) = 2
rank sent = 3

abbrev pub bit : Bool → ℕ
bit b = if b then 1 else 0

-- How far the card has come with the node that it takes or has in hand.
abbrev pub card_rank : {D : Time} → Card D → ℕ
card_rank polling = 2
card_rank (calculating _) = 0
card_rank (delivering _ _) = 1

pub card_rank-le : {D : Time} (c : Card D) → card_rank c ≤ 2
card_rank-le polling = omega arith
card_rank-le (calculating _) = omega arith
card_rank-le (delivering _ _) = omega arith

-- The work done so far.
abbrev pub work : {D : Time} → ℕ → Phase D → ℕ
work n p =
    total n (λ i. rank (p.sys.stage i))
    + total n (λ i. bit (p.through i))
    + 3 * length p.sys.taken
    + card_rank p.card

pub rank-le : (s : Stage) → rank s ≤ 3
rank-le s = ground arith

pub bit-le : (b : Bool) → bit b ≤ 1
bit-le b = ground arith

module _ (n : ℕ) where
  pub stage-total :
      (f : ℕ → Stage) (i : ℕ) (s : Stage)
      → i < n
      → total n (λ j. rank (set_stage f i s j)) + rank (f i) ≡ total n (λ j. rank (f j)) + rank s
  stage-total f i s lt =
      total-set n i (rank s) (λ j. rank (f j)) (λ j. rank (set_stage f i s j)) lt
        (rw (==_refl i) refl) (λ j ne. rw (==_ne i j ne) refl)

  pub through-total :
      (f : ℕ → Bool) (i : ℕ)
      → i < n
      → total n (λ j. bit (set f i true j)) + bit (f i) ≡ total n (λ j. bit (f j)) + 1
  through-total f i lt =
      total-set n i 1 (λ j. bit (f j)) (λ j. bit (set f i true j)) lt (rw (==_refl i) refl)
        (λ j ne. rw (==_ne i j ne) refl)
