-- ===== src/Bench/Once.antt =====
-- `measureStrideRead` (src/benchmark.cpp) reads each part of the memory once.
use native.Mathlib.Decide.{dec_lt}
use native.Mathlib.Nat.{mod-lt, div-add-mod'}
use mio_xcena.Base.{
  leb, eq_or_ne, lt→leb, ℕ, ◌+◌, ◌*◌, ◌/◌, ◌%◌, ◌<◌, ◌≤◌, ◌≡◌, ◌≢◌, refl, ==_refl, ==_ne,
  if◌then◌else◌, [], ◌∷◌, ap, sym, ◌∙◌, arith, inl, inr, ◌⊎◌, le→leb, Bool, true, false,
}
use mio_xcena.Grid.{before, index_of, index_of-injective}
use mio_xcena.Bench.Counters.{occurrences, occurrences-concat_map, sum_over-none, sum_over-one}
use mio_xcena.Bench.Stride.{counter, block_places, phase_places, stride_places}

pub pick_other : (t : Bool) (x u : ℕ) → x ≢ u → occurrences u (if t then x ∷ [] else []) ≡ 0
pick_other true x u other = rw (==_ne x u other) refl
pick_other false x u other = refl

pick_same : (t : Bool) (x u : ℕ) → t ≡ true → x ≡ u → occurrences u (if t then x ∷ [] else []) ≡ 1
pick_same true x u on e = rw (e, ==_refl u) refl
pick_same false x u on e = cc

module _ (per : ℕ) where
  block-misses :
      (size o u : ℕ) → (u < o) ⊎ (o + size ≤ u) → occurrences u (block_places size per o) ≡ 0
  unfolding block_places
  block-misses size o u away =
      occurrences-concat_map u _ (counter size 0 size 32)
      ∙ sum_over-none _ size 0 size 32 (λ k lt.
        pick_other _ (o + (0 + k * 32)) u
          (λ e. elim away [ inl below ↦ absurd (omega arith) | inr above ↦ absurd (omega arith) ]))

  block-hits :
      (size o j : ℕ)
      → j * 32 < size
      → o + j * 32 + 32 ≤ per
      → occurrences (o + j * 32) (block_places size per o) ≡ 1
  unfolding block_places
  block-hits size o j inside fits =
      occurrences-concat_map (o + j * 32) _ (counter size 0 size 32)
      ∙ sum_over-one _ j size 0 size 32 (omega arith) (omega arith)
          (λ k other lt. pick_other _ (o + (0 + k * 32)) (o + j * 32) (λ e. other (omega arith)))
      ∙ pick_same _ (o + (0 + j * 32)) (o + j * 32) (le→leb _ _ (omega arith)) (omega arith)

  -- A stride of `r` blocks: the offset of phase `i` and round `k` is the start of a block.
  module _ (size r : ℕ) (some : 1 ≤ size) where
    at_block : (i k : ℕ) → i * size + k * (r * size + size) ≡ index_of (r + 1) k i * size
    at_block i k = grind arith

    -- Bytes of one block are not in the block of another number.
    other_block :
        (i k i' k' j : ℕ)
        → i < r + 1
        → i' < r + 1
        → (k' ≢ k) ⊎ (i' ≢ i)
        → j < size
        → (index_of (r + 1) k i * size + j < index_of (r + 1) k' i' * size)
          ⊎ (index_of (r + 1) k' i' * size + size ≤ index_of (r + 1) k i * size + j)
    other_block i k i' k' j a b differ small =
        elim (dec_lt (index_of (r + 1) k i) (index_of (r + 1) k' i')) [
          | yes lower ↦ inl (omega (arith, before _ _ size lower))
          | no not_lower ↦ elim (dec_lt (index_of (r + 1) k' i') (index_of (r + 1) k i)) [
            | yes upper ↦ inr (omega (arith, before _ _ size upper))
            | no not_upper ↦
                let same = index_of-injective (r + 1) k i k' i' a b (omega arith) in
                elim differ [
                  | inl k_differs ↦ absurd (k_differs (sym (same.0)))
                  | inr i_differs ↦ absurd (i_differs (sym (same.1)))
                ]
          ]
        ]

    mul_ge : (a b : ℕ) → 1 ≤ b → a ≤ a * b
    mul_ge a b h = grind arith

    round_le : (k : ℕ) → k ≤ k * (r * size + size)
    round_le k = mul_ge k (r * size + size) (omega arith)

    phase-misses :
        (i k j i' : ℕ)
        → i < r + 1
        → i' < r + 1
        → i' ≢ i
        → j < size
        → occurrences
            (index_of (r + 1) k i * size + j)
            (phase_places size (r * size) per (i' * size))
          ≡ 0
    unfolding phase_places
    phase-misses i k j i' a b differ small =
        occurrences-concat_map _ (block_places size per)
          (counter per (i' * size) per (r * size + size))
        ∙ sum_over-none _ per (i' * size) per (r * size + size) (λ k' lt.
          ap (λ o. occurrences (index_of (r + 1) k i * size + j) (block_places size per o))
            (at_block i' k')
          ∙ block-misses size _ _ (other_block i k i' k' j a b (inr differ) small))

    phase-hits :
        (i k j : ℕ)
        → i < r + 1
        → j * 32 < size
        → index_of (r + 1) k i * size + j * 32 + 32 ≤ per
        → occurrences
            (index_of (r + 1) k i * size + j * 32)
            (phase_places size (r * size) per (i * size))
          ≡ 1
    unfolding phase_places
    phase-hits i k j a small fits =
        occurrences-concat_map _ (block_places size per)
          (counter per (i * size) per (r * size + size))
        ∙ sum_over-one _ k per (i * size) per (r * size + size)
            (omega (arith, at_block i k, round_le k)) (omega (arith, at_block i k))
            (λ k' other lt.
              ap (λ o. occurrences (index_of (r + 1) k i * size + j * 32) (block_places size per o))
                (at_block i k')
              ∙ block-misses size _ _ (other_block i k i k' (j * 32) a a (inl other) small))
        ∙ ap (λ o. occurrences (index_of (r + 1) k i * size + j * 32) (block_places size per o))
            (at_block i k)
        ∙ block-hits size _ j small fits

    zero_add : (n : ℕ) → 0 + n ≡ n
    zero_add n = omega arith

    phase_lt : (i : ℕ) → i * size < r * size + size → i < r + 1
    phase_lt i lt = grind arith

    stride-hits :
        (i k j : ℕ)
        → i < r + 1
        → j * 32 < size
        → index_of (r + 1) k i * size + j * 32 + 32 ≤ per
        → occurrences (index_of (r + 1) k i * size + j * 32) (stride_places size (r * size) per) ≡ 1
    unfolding stride_places
    stride-hits i k j a small fits =
        let inside : i * size < r * size + size = grind arith in
        let at_phase = λ (p : ℕ).
          occurrences (index_of (r + 1) k i * size + j * 32) (phase_places size (r * size) per p) in
        occurrences-concat_map _ (phase_places size (r * size) per)
          (counter (r * size + size) 0 (r * size + size) size)
        ∙ sum_over-one _ i (r * size + size) 0 (r * size + size) size
            (omega (arith, mul_ge i size some)) (omega arith)
            (λ i' other lt.
              ap at_phase (zero_add (i' * size))
              ∙ phase-misses i k (j * 32) i' a (phase_lt i' (omega (arith, lt))) other small)
        ∙ ap at_phase (zero_add (i * size))
        ∙ phase-hits i k j a small fits

scaled : (w q : ℕ) → w / q * (q * 32) + w % q * 32 ≡ (w / q * q + w % q) * 32
scaled w q = grind arith

unit_once :
    (q r per : ℕ)
    → 1 ≤ q
    → (w : ℕ) → w * 32 + 32 ≤ per
    → occurrences (w * 32) (stride_places (q * 32) (r * (q * 32)) per) ≡ 1
unit_once q r per some w fits =
    let block = w / q in
    let k = block / (r + 1) in
    let i = block % (r + 1) in
    let same : index_of (r + 1) k i * (q * 32) + w % q * 32 ≡ w * 32 =
      rw (div-add-mod' block (r + 1)) (scaled w q ∙ ap (λ n. n * 32) (div-add-mod' w q)) in
    ap (λ u. occurrences u (stride_places (q * 32) (r * (q * 32)) per)) (sym same)
    ∙ stride-hits per (q * 32) r (omega arith) i k (w % q) (mod-lt block (omega arith))
        (omega (arith, mod-lt w some)) (omega (arith, same))

pick_beyond :
    (per x u : ℕ) → per < u + 32 → occurrences u (if leb (x + 32) per then x ∷ [] else []) ≡ 0
pick_beyond per x u past = elim (eq_or_ne x u) [
  | inl same ↦ rw (lt→leb (x + 32) per (omega arith)) refl
  | inr other ↦ pick_other _ x u other
]

-- Whatever the sizes, nothing is read that goes beyond the share.
pub stride_places-inside :
    (size stride per u : ℕ) → per < u + 32 → occurrences u (stride_places size stride per) ≡ 0
unfolding stride_places phase_places block_places
stride_places-inside size stride per u past =
    occurrences-concat_map u _ (counter (stride + size) 0 (stride + size) size)
    ∙ sum_over-none _ (stride + size) 0 (stride + size) size (λ i lt.
      occurrences-concat_map u _ (counter per (0 + i * size) per (stride + size))
      ∙ sum_over-none _ per (0 + i * size) per (stride + size) (λ k below.
        occurrences-concat_map u _ (counter size 0 size 32)
        ∙ sum_over-none _ size 0 size 32 (λ j inner. pick_beyond per _ u past)))

-- When the block size is a positive multiple of 32 bytes and the stride a multiple of the block size,
-- each 32 bytes of the thread's share, taken from its start, are read exactly once, and nothing is read
-- that goes beyond the share.
pub stride_places_once :
    (q r per : ℕ)
    → 1 ≤ q
    → ((w : ℕ)
        → w * 32 + 32 ≤ per
        → occurrences (w * 32) (stride_places (q * 32) (r * (q * 32)) per) ≡ 1)
      × ((u : ℕ) → per < u + 32 → occurrences u (stride_places (q * 32) (r * (q * 32)) per) ≡ 0)
stride_places_once q r per some =
    (unit_once q r per some, stride_places-inside (q * 32) (r * (q * 32)) per)
