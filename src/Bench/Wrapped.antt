-- ===== src/Bench/Wrapped.antt =====
-- The loops of the stride tests of src/benchmark.cpp end, and `size_t` does not wrap in them, when the sizes are
-- far enough below 2^64.
use mio_xcena.Base.{
  ℕ, zero, suc, ◌+◌, ◌*◌, ◌<◌, ◌≤◌, ◌^◌, ◌≡◌, refl, false, Option, some, ltb, leb, if◌then◌else◌,
  List, [], ◌∷◌, u64, arith, Bool-cases, inl, inr,
}
use mio_xcena.Bench.Stride.{
  counter, concat_map, block_places, phase_places, stride_places, wrapping_counter, rounds,
  block_offsets, phase_offsets, stride_offsets,
}

-- All entries are below the bound.
abbrev AllBelow : ℕ → List ℕ → Type 0
AllBelow last [] = Unit {0}
AllBelow last (x ∷ xs) = (x < last) × AllBelow last xs

counter-AllBelow : (fuel at last step : ℕ) → AllBelow last (counter fuel at last step)
unfolding counter
counter-AllBelow zero at last step = tt
counter-AllBelow (suc fuel) at last step = elim (Bool-cases (ltb at last)) [
  | inl below ↦ rw below (ground arith, counter-AllBelow fuel (at + step) last step)
  | inr over ↦ rw over tt
]

-- The counter does not wrap if its last step does not.
wrapping_counter-counter :
    (fuel at last step : ℕ)
    → 1 ≤ step
    → last ≤ at + fuel
    → last + step ≤ 2 ^ 64
    → wrapping_counter (suc fuel) at last step ≡ some (counter fuel at last step)
unfolding wrapping_counter counter
wrapping_counter-counter zero at last step pos enough small =
    let over : ltb at last ≡ false = ground arith in rw over refl
wrapping_counter-counter (suc fuel) at last step pos enough small =
    elim (Bool-cases (ltb at last)) [
      | inl below ↦
          let lt : at < last = ground arith in
          let exact : u64 (at + step) ≡ at + step = omega arith in
          let rest = wrapping_counter-counter fuel (at + step) last step pos (omega arith) small in
          rw (below, exact, rest) refl
      | inr over ↦ rw over refl
    ]

rounds-concat_map :
    (last : ℕ) (f : ℕ → Option (List ℕ)) (g : ℕ → List ℕ) (xs : List ℕ)
    → AllBelow last xs
    → ((x : ℕ) → x < last → f x ≡ some (g x))
    → rounds f xs ≡ some (concat_map g xs)
rounds-concat_map last f g [] below same = refl
rounds-concat_map last f g (x ∷ xs) (lt, below) same =
    rw (same x lt, rounds-concat_map last f g xs below same) refl

-- The bound under which nothing wraps.
abbrev pub IsFar : (block_size stride per_thread_size : ℕ) → Type 0
IsFar block_size stride per_thread_size = per_thread_size + stride + 2 * block_size + 32 ≤ 2 ^ 64

module _ (size stride per : ℕ) (pos : 1 ≤ size) (far : IsFar size stride per) where
  block_offsets-block_places :
      (offset : ℕ)
      → offset < per
      → block_offsets size per offset ≡ some (block_places size per offset)
  unfolding block_offsets block_places
  block_offsets-block_places offset lt =
      rw (wrapping_counter-counter size 0 size 32 (omega arith) (omega arith) (omega arith)) (
        rounds-concat_map size
          (λ x. some (if leb (u64 (u64 (offset + x) + 32)) per then u64 (offset + x) ∷ [] else []))
          _ (counter size 0 size 32) (counter-AllBelow size 0 size 32)
          (λ b b_lt.
            let inner : u64 (offset + b) ≡ offset + b = omega arith in
            let outer : u64 (offset + b + 32) ≡ offset + b + 32 = omega arith in
            rw (inner, outer) refl))

  phase_offsets-phase_places :
      (phase : ℕ) → phase_offsets size stride per phase ≡ some (phase_places size stride per phase)
  unfolding phase_offsets phase_places
  phase_offsets-phase_places phase =
      let step : u64 (stride + size) ≡ stride + size = omega arith in
      rw
        (
          step,
          wrapping_counter-counter per phase per (stride + size) (omega arith) (omega arith)
              (omega arith),
        )
        (rounds-concat_map per _ _ (counter per phase per (stride + size))
          (counter-AllBelow per phase per (stride + size))
          (λ o lt. block_offsets-block_places o lt))

  -- The offsets are those without the limits of `size_t`.
  pub stride_offsets-stride_places :
      stride_offsets size stride per ≡ some (stride_places size stride per)
  unfolding stride_offsets stride_places
  stride_offsets-stride_places =
      let last : u64 (stride + size) ≡ stride + size = omega arith in
      rw
        (
          last,
          wrapping_counter-counter (stride + size) 0 (stride + size) size pos (omega arith)
              (omega arith),
        )
        (rounds-concat_map (stride + size) _ _ (counter (stride + size) 0 (stride + size) size)
          (counter-AllBelow (stride + size) 0 (stride + size) size)
          (λ phase lt. phase_offsets-phase_places phase))
