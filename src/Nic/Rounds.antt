-- ===== src/Nic/Rounds.antt =====
-- When `rnic_thread` of custom-test/test2-rdma-fin.c returns: it waits for one request of each reader
-- that it was told of.
use mio_xcena.Base.{
  ℕ, suc, ◌+◌, ◌<◌, ◌≤◌, ◌^◌, ◌≡◌, refl, ltb, ltb→lt, lt→ltb, le→ltb, Option, none, some, List, [],
  ◌∷◌, arith, Bool-cases, inl, inr,
}
use mio_xcena.Nic.Clock.{Time}
use mio_xcena.Nic.{RdmaReq, Device, dispatch, calculate, rnic_thread}

-- How many of the calls of `mpsc_dequeue` give a request.
abbrev pub answered {ℓ} : {A : Type ℓ} → List (Option A) → ℕ
answered [] = 0
answered (none ∷ polls) = answered polls
answered (some r ∷ polls) = suc (answered polls)

module _ (D : Time) (delta : D.T) (num_readers : ℕ) where
  -- It returned, and has answered every reader.
  abbrev pub Returned : Option (Device D) → Type 0
  Returned none = ⊥
  Returned (some d) = d.done ≡ num_readers

  waits :
      (polls : List (Option (RdmaReq D))) (d : Device D)
      → num_readers < 2 ^ 32
      → d.done + answered polls < num_readers
      → rnic_thread D delta num_readers polls d ≡ none
  unfolding rnic_thread
  waits [] d small few = rw (lt→ltb d.done num_readers (omega (arith, few))) refl
  waits (none ∷ polls) d small few =
      rw (lt→ltb d.done num_readers (omega (arith, few))) (waits polls d small few)
  waits (some r ∷ polls) d small few =
      rw (lt→ltb d.done num_readers (omega (arith, few)))
        (waits polls (dispatch D d (calculate D delta d.nic r)) small (omega (arith, few)))

  returns :
      (polls : List (Option (RdmaReq D))) (d : Device D)
      → num_readers < 2 ^ 32
      → d.done ≤ num_readers
      → num_readers ≤ d.done + answered polls
      → Returned (rnic_thread D delta num_readers polls d)
  unfolding rnic_thread
  returns [] d small le enough = rw (le→ltb d.done num_readers (omega arith)) (omega arith)
  returns (none ∷ polls) d small le enough = elim (Bool-cases (ltb d.done num_readers)) [
    | inl more ↦ rw more (returns polls d small le enough)
    | inr over ↦ rw over (ground arith)
  ]
  returns (some r ∷ polls) d small le enough = elim (Bool-cases (ltb d.done num_readers)) [
    | inl more ↦
        let lt = ltb→lt d.done num_readers more in
        rw more (
          returns polls (dispatch D d (calculate D delta d.nic r)) small (omega arith)
            (omega arith))
    | inr over ↦ rw over (ground arith)
  ]

  -- `rnic_thread`, started with `done = 0`, returns once its calls of `mpsc_dequeue` have given it
  -- `num_readers` requests, and has then answered that many; as long as they have given it fewer, it
  -- goes on waiting.
  pub rnic_thread_lem :
      (polls : List (Option (RdmaReq D))) (d : Device D)
      → num_readers < 2 ^ 32
      → d.done ≡ 0
      → (num_readers ≤ answered polls → Returned (rnic_thread D delta num_readers polls d))
        × (answered polls < num_readers → rnic_thread D delta num_readers polls d ≡ none)
  rnic_thread_lem polls d small start = (
    λ enough. returns polls d small (omega arith) (omega arith),
    λ few. waits polls d small (omega arith),
  )
