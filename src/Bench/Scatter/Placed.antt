-- ===== src/Bench/Scatter/Placed.antt =====
-- `measureRandomWrite` (src/benchmark.cpp) writes each block of a thread's share once.
use mio_xcena.Base.{
  ℕ, zero, suc, ◌+◌, ◌*◌, ◌/◌, ◌<◌, ◌≤◌, ◌≡◌, ◌≢◌, inl, inr, refl, sym, ◌∙◌, arith, ltb, leb, true,
  false, ◌&&◌, if◌then◌else◌, u32, le→leb, lt→leb, if_both, eq_or_ne, for_range_zero,
}
use native.Mathlib.Decide.{dec_lt}
use mio_xcena.Bench.Sequential.{Ints}
use mio_xcena.Bench.Scatter.{store_eight, write_block, Scattering, scatter_block, random_write}

-- `value` in the elements `from, ..., to - 1`.
abbrev filled : (from to value : ℕ) → Ints → Ints
filled from to value d k = if leb from k && ltb k to then value else d k

write_block-filled :
    (fuel q j offset value : ℕ) (d : Ints) (k : ℕ)
    → q ≤ fuel
    → write_block fuel j (j + 8 * q) offset value d k
      ≡ filled (offset + j) (offset + j + 8 * q) value d k
unfolding write_block store_eight
write_block-filled zero q j offset value d k le = ground arith
write_block-filled (suc fuel) zero j offset value d k le =
    let over : leb (j + 8) (j + 8 * 0) ≡ false = lt→leb (j + 8) (j + 8 * 0) (omega arith) in
    rw over (ground arith)
write_block-filled (suc fuel) (suc q) j offset value d k le =
    let on : leb (j + 8) (j + 8 * suc q) ≡ true = le→leb (j + 8) (j + 8 * suc q) (omega arith) in
    let same : j + 8 * suc q ≡ j + 8 + 8 * q = omega arith in
    let rest =
      write_block-filled fuel q (j + 8) offset value (store_eight (offset + j) value d) k
        (omega arith) in
    rw (on, same) (rest ∙ (ground arith))

blocks-apart : (a b w : ℕ) → a < b → a * w + w ≤ b * w
blocks-apart a b w lt = grind arith

-- Element `k` of block `a`, when block `b` of `w` elements is filled.
filled-other :
    (a b w k value : ℕ) (d : Ints)
    → a ≢ b
    → k < w
    → filled (b * w) (b * w + w) value d (a * w + k) ≡ d (a * w + k)
filled-other a b w k value d ne lt = elim (dec_lt a b) [
  | yes below ↦ ground (arith, blocks-apart a b w below)
  | no above ↦ let over : b < a = omega (arith, ne) in ground (arith, blocks-apart b a w over)
]

filled-same :
    (b w k value : ℕ) (d : Ints) → k < w → filled (b * w) (b * w + w) value d (b * w + k) ≡ value
filled-same b w k value d lt = ground arith

-- After the rounds before `at`, with blocks of `8 * q` elements.
record IsPlaced (q : ℕ) (indices : ℕ → ℕ) (d : Ints) (at : ℕ) (s : Scattering) : Type 0 where
  placed : (p k : ℕ) → p < at → k < 8 * q → s.thread_data (indices p * (8 * q) + k) ≡ u32 p
  kept :
      (b k : ℕ)
      → ((p : ℕ) → p < at → indices p ≢ b)
      → k < 8 * q
      → s.thread_data (b * (8 * q) + k) ≡ d (b * (8 * q) + k)
  counted : s.progress + s.local_bytes ≡ at * (32 * q)

-- What one round has written.
abbrev wrote : (q : ℕ) → (indices : ℕ → ℕ) → ℕ → Ints → Ints
wrote q indices i d = write_block (32 * q / 4) 0 (32 * q / 4) (indices i * (32 * q) / 4) (u32 i) d

offset-exact : (i q : ℕ) → i * (32 * q) / 4 ≡ i * (8 * q)
offset-exact i q = let e : i * (32 * q) ≡ 4 * (i * (8 * q)) = grind arith in omega (arith, e)

wrote-filled :
    (q i k : ℕ) (indices : ℕ → ℕ) (d : Ints)
    → wrote q indices i d k ≡ filled (indices i * (8 * q)) (indices i * (8 * q) + 8 * q) (u32 i) d k
wrote-filled q i k indices d =
    let size : 32 * q / 4 ≡ 0 + 8 * q = omega arith in
    let none_before : indices i * (8 * q) + 0 ≡ indices i * (8 * q) = omega arith in
    rw (size, offset-exact (indices i) q)
      (write_block-filled (0 + 8 * q) q 0 (indices i * (8 * q)) (u32 i) d k (omega arith)
        ∙ rw none_before refl)

round-IsPlaced :
    (q n : ℕ) (indices : ℕ → ℕ) (d : Ints) (i : ℕ) (s : Scattering) (local_bytes progress : ℕ)
    → ((a b : ℕ) → a < n → b < n → a ≢ b → indices a ≢ indices b)
    → i < n
    → progress + local_bytes ≡ (i + 1) * (32 * q)
    → IsPlaced q indices d i s
    → IsPlaced q indices d (i + 1) (record {
      thread_data = wrote q indices i s.thread_data;
      local_bytes = local_bytes;
      progress = progress;
    })
round-IsPlaced q n indices d i s local_bytes progress distinct lt sum v = record {
  placed = λ p k p_lt k_lt.
      wrote-filled q i (indices p * (8 * q) + k) indices s.thread_data ∙ elim (eq_or_ne p i) [
        | inl e ↦ rw e (filled-same (indices i) (8 * q) k (u32 i) s.thread_data k_lt)
        | inr ne ↦
            filled-other (indices p) (indices i) (8 * q) k (u32 i) s.thread_data
              (distinct p i (omega arith) lt ne) k_lt
            ∙ v.placed p k (omega (arith, ne)) k_lt
      ];
  kept = λ b k other k_lt.
      wrote-filled q i (b * (8 * q) + k) indices s.thread_data
      ∙ filled-other b (indices i) (8 * q) k (u32 i) s.thread_data
          (λ e. other i (omega arith) (sym e)) k_lt
      ∙ v.kept b k (λ p p_lt. other p (omega arith)) k_lt;
  counted = sum;
}

scatter_block-IsPlaced :
    (q n : ℕ) (indices : ℕ → ℕ) (d : Ints)
    → ((a b : ℕ) → a < n → b < n → a ≢ b → indices a ≢ indices b)
    → (i : ℕ) (s : Scattering) → i < n
    → IsPlaced q indices d i s
    → IsPlaced q indices d (i + 1) (scatter_block (32 * q) indices i s)
unfolding scatter_block
scatter_block-IsPlaced q n indices d distinct i s lt v =
    let sum : s.progress + (s.local_bytes + 32 * q) ≡ (i + 1) * (32 * q) =
      grind (arith, v.counted) in
    if_both (IsPlaced q indices d (i + 1)) _ _ _
      (round-IsPlaced q n indices d i s 0 (s.progress + (s.local_bytes + 32 * q)) distinct lt
        (omega (arith, sum)) v)
      (round-IsPlaced q n indices d i s (s.local_bytes + 32 * q) s.progress distinct lt sum v)

-- When the block size is a positive multiple of 32 bytes, and the indices name different blocks for
-- different places, the block named at place `p` of a thread's random write holds `p` in every
-- element, modulo 2^32; a block that is named at no place is left as it was; and the bytes reported
-- are the blocks times their size.
pub random_write_placed :
    (q per_thread_size : ℕ) (indices : ℕ → ℕ) (d : Ints)
    → 0 < q
    → ((a b : ℕ)
        → a < per_thread_size / (32 * q)
        → b < per_thread_size / (32 * q)
        → a ≢ b
        → indices a ≢ indices b)
    → let n = per_thread_size / (32 * q) in
      let r = random_write (32 * q) per_thread_size indices d in
      ((p k : ℕ) → p < n → k < 8 * q → r.0 (indices p * (8 * q) + k) ≡ u32 p)
      × ((b k : ℕ)
          → ((p : ℕ) → p < n → indices p ≢ b)
          → k < 8 * q
          → r.0 (b * (8 * q) + k) ≡ d (b * (8 * q) + k))
      × (r.1 ≡ n * (32 * q))
unfolding random_write
random_write_placed q per_thread_size indices d pos distinct =
    let n = per_thread_size / (32 * q) in
    let v =
      for_range_zero (IsPlaced q indices d) (scatter_block (32 * q) indices) n
        (λ i s lt h. scatter_block-IsPlaced q n indices d distinct i s lt h)
        (record { thread_data = d; local_bytes = 0; progress = 0 })
        (record {
          placed = λ p k p_lt k_lt. absurd (omega arith);
          kept = λ b k other k_lt. refl;
          counted = omega arith;
        }) in
    (v.placed, v.kept, v.counted)
