-- ===== src/Plain/Created.antt =====
-- What the creation loop of `run_one_sweep` (custom-test/test2.c) leaves, as the monitor sees it.
use mio_xcena.Base.{
  ℕ, zero, suc, ◌+◌, ◌<◌, ◌≤◌, ◌^◌, ◌≡◌, refl, Bool, true, false, ◌&&◌, not, Bool-cases, inl, inr,
  some, List, [], ◌∷◌, u32, arith,
}
use mio_xcena.Monitor.{Handle, scratch, Event, create, open_gate, acquire_if, watch}
use mio_xcena.Monitor.Steps.{
  watch-then, watch-next, World, view, put, acquire_scratch, create_reader, open_for_all,
}
use mio_xcena.Plain.Resources.{Reader, Created, stop, create_readers}

-- The creation loop leaves readers below `c.created`, and no buffer from `upto` on.
pub record IsCreated (h : Handle) (k upto : ℕ) (w : World) (c : Created) : Type 0 where
  pub accepted :
      watch h k c.events (view h k w)
      ≡ some (
          view h k
            (record { low = 0; high = c.created; is_open = not c.complete; buffers = c.buffers }))
  pub bounded : c.created ≤ upto
  pub full : c.complete ≡ true → c.created ≡ upto
  pub none_beyond : (j : ℕ) → upto ≤ j → c.buffers j ≡ false

-- Before reader `i` is created.
abbrev pub world : (ℕ → Bool) → ℕ → World
world s i = record { low = 0; high = i; is_open = false; buffers = s }

stop-IsCreated :
    (h : Handle) (k i upto : ℕ) (w : World) (es : List Event) (s : ℕ → Bool)
    → watch h k es (view h k w) ≡ some (view h k (world s i))
    → i < upto
    → ((j : ℕ) → upto ≤ j → s j ≡ false)
    → IsCreated h k upto w (stop es i s)
unfolding watch
stop-IsCreated h k i upto w es s e lt beyond = record {
  accepted = watch-then h k es (open_gate i ∷ []) (view h k w) (view h k (world s i)) _ e (
      watch-next h k (open_gate i) [] (view h k (world s i)) _ _ (open_for_all h k (world s i))
        refl);
  bounded = omega arith;
  full = λ e. cc;
  none_beyond = beyond;
}

no_buffer :
    (h : Handle) (k i : ℕ) (has : Bool) (s : ℕ → Bool)
    → s i ≡ false
    → has ≡ false
    → watch h k [] (view h k (world s i)) ≡ some (view h k (world (put s i has) i))
no_buffer h k i has s e f = rw f (acquire_scratch h k i false (world s i) e)

pub create_readers-IsCreated :
    (h : Handle) (k : ℕ) (copy_to_dst : Bool) (reader : ℕ → Reader) (left i upto : ℕ) (s : ℕ → Bool)
    → i + left ≡ upto
    → upto < 2 ^ 32
    → ((j : ℕ) → i ≤ j → s j ≡ false)
    → IsCreated h k upto (world s i) (create_readers copy_to_dst reader left i i s)
unfolding create_readers watch
create_readers-IsCreated h k copy_to_dst reader zero i upto s sum small beyond = record {
  accepted = refl;
  bounded = omega arith;
  full = λ e. omega arith;
  none_beyond = λ j le. beyond j (omega arith);
}
create_readers-IsCreated h k copy_to_dst reader (suc left) i upto s sum small beyond =
    let has : Bool = copy_to_dst && (reader i).scratch in
    let kept : ℕ → Bool = put s i has in
    let kept_beyond : ((j : ℕ) → suc i ≤ j → kept j ≡ false) = λ j le. ground (arith, beyond j) in
    let acquired = acquire_scratch h k i has (world s i) (beyond i (omega arith)) in
    let r =
      create_readers-IsCreated h k copy_to_dst reader left (i + 1) upto kept (omega arith) small
        (λ j le. kept_beyond j (omega arith)) in
    let exact : u32 (i + 1) ≡ i + 1 = omega arith in
    let both : (copy_to_dst && not has) ≡ true → has ≡ false = λ e. ground arith in
    elim (Bool-cases (copy_to_dst && not has)) [
      | inl none_there ↦ rw none_there (
          stop-IsCreated h k i upto (world s i) [] kept
            (no_buffer h k i has s (beyond i (omega arith)) (both none_there)) (omega arith)
            (λ j le. kept_beyond j (omega arith)))
      | inr there ↦ rw there (elim (Bool-cases (reader i).thread) [
        | inr failed ↦ rw failed (
            stop-IsCreated h k i upto (world s i) (acquire_if has (scratch i)) kept acquired
              (omega arith) (λ j le. kept_beyond j (omega arith)))
        | inl created ↦
            rw (created, exact)
              (record {
                accepted = watch-then h k (acquire_if has (scratch i)) _ _ _ _ acquired (
                    watch-next h k (create i) _ _ _ _
                      (create_reader h k (world kept i) (omega arith)) r.accepted);
                bounded = omega (arith, r.bounded);
                full = λ e. omega (arith, r.full e);
                none_beyond = λ j le. r.none_beyond j (omega arith);
              })
      ])
    ]

-- Where nothing fails, all readers are created.
pub create_readers-complete :
    (copy_to_dst : Bool) (reader : ℕ → Reader) (left i created : ℕ) (buffers : ℕ → Bool)
    → ((j : ℕ) → (reader j).scratch ≡ true)
    → ((j : ℕ) → (reader j).thread ≡ true)
    → (create_readers copy_to_dst reader left i created buffers).complete ≡ true
unfolding create_readers
create_readers-complete copy_to_dst reader zero i created buffers s t = refl
create_readers-complete copy_to_dst reader (suc left) i created buffers s t =
    let there : (copy_to_dst && not (copy_to_dst && (reader i).scratch)) ≡ false =
      ground (arith, s i) in
    rw (there, t i) (create_readers-complete copy_to_dst reader left (i + 1) _ _ s t)
