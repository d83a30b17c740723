-- ===== src/Bench/StrideWrite/Aligned.antt =====
-- The offsets of a thread's stores (`measureStrideWrite` of src/benchmark.cpp) are multiples of 32 when the
-- sizes are, and their stores stay inside the thread's share.
use mio_xcena.Base.{
  ℕ, ◌+◌, ◌*◌, ◌/◌, ◌%◌, ◌<◌, ◌≤◌, ◌≡◌, ◌≢◌, List, [], ◌∷◌, length, arith, ◌∙◌, ==_refl, ==_ne,
  ==_iff, total, total-set, total-le, total-ones, if◌then◌else◌, ◌==◌,
}
use native.Mathlib.Decide.{dec_le, ℕ_discrete}
use mio_xcena.Bench.Counters.{occurrences, occurrences-concat_map, sum_over-none}
use mio_xcena.Bench.Stride.{counter, block_places, phase_places, stride_places}
use mio_xcena.Bench.Once.{pick_other, stride_places-inside}

-- Every offset is a multiple of 32, and its 32 bytes lie in the share.
abbrev pub AllFit : (per : ℕ) → List ℕ → Type 0
AllFit per [] = Unit {0}
AllFit per (o ∷ os) = ((o % 32 ≡ 0) × (o + 32 ≤ per)) × AllFit per os

-- An offset that never comes up is not in front.
not_in_front : (o : ℕ) (os : List ℕ) → occurrences o (o ∷ os) ≢ 0
not_in_front o os e = let same = ==_refl o in absurd (ground (arith, same))

none_behind : (u o : ℕ) (os : List ℕ) → occurrences u (o ∷ os) ≡ 0 → occurrences u os ≡ 0
none_behind u o os e = omega (arith, e)

AllFit-occurrences :
    (per : ℕ) (os : List ℕ)
    → ((u : ℕ) → u % 32 ≢ 0 → occurrences u os ≡ 0)
    → ((u : ℕ) → per < u + 32 → occurrences u os ≡ 0)
    → AllFit per os
AllFit-occurrences per [] odd beyond = tt
AllFit-occurrences per (o ∷ os) odd beyond = (
  (
    elim (ℕ_discrete (o % 32) 0) [ yes e ↦ e | no ne ↦ absurd (not_in_front o os (odd o ne)) ],
    elim (dec_le (o + 32) per) [
      | yes le ↦ le
      | no gt ↦ absurd (not_in_front o os (beyond o (omega arith)))
    ],
  ),
  AllFit-occurrences per os (λ u ne. none_behind u o os (odd u ne))
      (λ u lt. none_behind u o os (beyond u lt)),
)

multiple : (q r i k j : ℕ) → (i * (q * 32) + k * (r * (q * 32) + q * 32) + j * 32) % 32 ≡ 0
multiple q r i k j =
    let e : i * (q * 32) + k * (r * (q * 32) + q * 32) + j * 32
        ≡ (i * q + k * (r * q + q) + j) * 32 =
      grind arith in
    omega (arith, e)

module _ (q r per u : ℕ) (odd : u % 32 ≢ 0) where
  stride_places-odd : occurrences u (stride_places (q * 32) (r * (q * 32)) per) ≡ 0
  unfolding stride_places phase_places block_places
  stride_places-odd =
      let size = q * 32 in
      let stride = r * (q * 32) in
      occurrences-concat_map u _ (counter (stride + size) 0 (stride + size) size)
      ∙ sum_over-none _ (stride + size) 0 (stride + size) size (λ i lt.
        occurrences-concat_map u _ (counter per (0 + i * size) per (stride + size))
        ∙ sum_over-none _ per (0 + i * size) per (stride + size) (λ k below.
          occurrences-concat_map u _ (counter size 0 size 32)
          ∙ sum_over-none _ size 0 size 32 (λ j inner.
            pick_other _ (0 + i * size + k * (stride + size) + (0 + j * 32)) u
              (λ e. odd (omega (arith, multiple q r i k j, e))))))

-- With a block size that is a multiple of 32 bytes and a stride that is one of the block size.
pub stride_places-AllFit : (q r per : ℕ) → AllFit per (stride_places (q * 32) (r * (q * 32)) per)
stride_places-AllFit q r per =
    AllFit-occurrences per _ (λ u odd. stride_places-odd q r per u odd)
      (λ u past. stride_places-inside (q * 32) (r * (q * 32)) per u past)

-- A list of such offsets is as long as the sum over the 32 bytes of how often each comes up.
length-total :
    (per : ℕ) (os : List ℕ)
    → AllFit per os
    → length os ≡ total (per / 32) (λ w. occurrences (w * 32) os)
length-total per [] fit = omega (arith, total-le (per / 32) 0 (λ w. 0) (λ w. omega arith))
length-total per (o ∷ os) ((even, inside), fit) =
    let here : (if o == o / 32 * 32 then 1 else 0) + occurrences (o / 32 * 32) os
        ≡ occurrences (o / 32 * 32) os + 1 =
      let e : o ≡ o / 32 * 32 = omega arith in rw ((==_iff o (o / 32 * 32)).1 e) (omega arith) in
    let others : (w : ℕ)
        → o / 32 ≢ w
        → (if o == w * 32 then 1 else 0) + occurrences (w * 32) os ≡ occurrences (w * 32) os =
      λ w ne. rw (==_ne o (w * 32) (λ e. ne (omega arith))) (omega arith) in
    omega (
      arith,
      length-total per os fit,
      total-set (per / 32) (o / 32) (occurrences (o / 32 * 32) os + 1)
          (λ w. occurrences (w * 32) os) (λ w. occurrences (w * 32) (o ∷ os)) (omega arith) here
          others,
    )

pub length-once :
    (per : ℕ) (os : List ℕ)
    → AllFit per os
    → ((w : ℕ) → w * 32 + 32 ≤ per → occurrences (w * 32) os ≡ 1)
    → length os ≡ per / 32
length-once per os fit once =
    length-total per os fit
    ∙ total-ones (per / 32) (λ w. occurrences (w * 32) os) (λ w lt. once w (omega arith))
