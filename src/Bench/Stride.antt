-- ===== src/Bench/Stride.antt =====
-- src/benchmark.cpp, `measureStrideRead`: the offsets that a thread reads, and the bytes it reports.
use mio_xcena.Base.{
  ℕ, zero, suc, ◌+◌, Option, none, some, ltb, leb, if◌then◌else◌, List, [], ◌∷◌, ◌++◌, u64,
}

-- The values of a counter that goes up from `at` by `step` while it is below `last`.
unfoldable pub counter : (fuel at last step : ℕ) → List ℕ
counter zero at last step = []
counter (suc fuel) at last step =
    let rest = counter fuel (at + step) last step in if ltb at last then at ∷ rest else []

abbrev pub concat_map : (ℕ → List ℕ) → List ℕ → List ℕ
concat_map f [] = []
concat_map f (x ∷ xs) = f x ++ concat_map f xs

-- The offsets without the limits of `size_t`: a block, 32 bytes at a time, as far as they lie in the share.
unfoldable pub block_places : (block_size per_thread_size offset : ℕ) → List ℕ
block_places block_size per_thread_size offset =
    concat_map (λ b. if leb (offset + b + 32) per_thread_size then (offset + b) ∷ [] else [])
      (counter block_size 0 block_size 32)

unfoldable pub phase_places : (block_size stride per_thread_size phase : ℕ) → List ℕ
phase_places block_size stride per_thread_size phase =
    concat_map (block_places block_size per_thread_size)
      (counter per_thread_size phase per_thread_size (stride + block_size))

-- A counter that begins at 0 or above and has a step of at least 1 takes at most as many values as its
-- bound, which is the fuel.
unfoldable pub stride_places : (block_size stride per_thread_size : ℕ) → List ℕ
stride_places block_size stride per_thread_size =
    concat_map (phase_places block_size stride per_thread_size)
      (counter (stride + block_size) 0 (stride + block_size) block_size)

-- What the rounds of a loop give together, if each of them ends.
abbrev pub and_rest : List ℕ → Option (List ℕ) → Option (List ℕ)
and_rest xs none = none
and_rest xs (some ys) = some (xs ++ ys)

-- The values of a counter of type `size_t` in `for (at; at < last; at += step)`; `none` if the loop never
-- ends. It has at most `last` different values below `last`, so the fuel `last + 1` tells.
unfoldable pub wrapping_counter : (fuel at last step : ℕ) → Option (List ℕ)
wrapping_counter zero at last step = none
wrapping_counter (suc fuel) at last step =
    let rest = wrapping_counter fuel (u64 (at + step)) last step in
    if ltb at last then and_rest (at ∷ []) rest else some []

abbrev pub round_and_rest : Option (List ℕ) → Option (List ℕ) → Option (List ℕ)
round_and_rest none rest = none
round_and_rest (some xs) rest = and_rest xs rest

abbrev pub rounds : (ℕ → Option (List ℕ)) → List ℕ → Option (List ℕ)
rounds f [] = some []
rounds f (x ∷ xs) = round_and_rest (f x) (rounds f xs)

abbrev pub rounds_of : (ℕ → Option (List ℕ)) → Option (List ℕ) → Option (List ℕ)
rounds_of f none = none
rounds_of f (some xs) = rounds f xs

-- The loop over a block: `if (offset + b + 32 <= per_thread_size)`.
unfoldable pub block_offsets : (block_size per_thread_size offset : ℕ) → Option (List ℕ)
block_offsets block_size per_thread_size offset =
    rounds_of
      (λ b.
        some
          (if leb (u64 (u64 (offset + b) + 32)) per_thread_size then u64 (offset + b) ∷ [] else []))
      (wrapping_counter (suc block_size) 0 block_size 32)

unfoldable pub phase_offsets : (block_size stride per_thread_size phase : ℕ) → Option (List ℕ)
phase_offsets block_size stride per_thread_size phase =
    rounds_of (block_offsets block_size per_thread_size)
      (wrapping_counter (suc per_thread_size) phase per_thread_size (u64 (stride + block_size)))

-- The offsets in the order in which they are used, or `none` if the loops never end.
unfoldable pub stride_offsets : (block_size stride per_thread_size : ℕ) → Option (List ℕ)
stride_offsets block_size stride per_thread_size =
    rounds_of (phase_offsets block_size stride per_thread_size)
      (wrapping_counter (suc (u64 (stride + block_size))) 0 (u64 (stride + block_size)) block_size)
