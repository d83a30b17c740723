-- ===== src/Bench/Stored.antt =====
-- `measureSequentialWrite` (src/benchmark.cpp) writes every element of a thread's share.
use native.Mathlib.Decide.{dec_le}
use mio_xcena.Base.{
  ℕ, zero, suc, ◌+◌, ◌-◌, ◌*◌, ◌<◌, ◌≤◌, ◌≡◌, refl, ap, ◌∙◌, arith, ltb, if◌then◌else◌, u32, le→leb,
  lt→leb, if_both,
}
use mio_xcena.Bench.Sequential.{
  Ints, Writing, store_vector, write_vector, write_vectors, store_int, write_rest, sequential_write,
}

-- The array of which the first `n` elements hold their own index.
abbrev pub numbered : ℕ → Ints → Ints
numbered n d k = if ltb k n then u32 k else d k

-- After the vectors before `i`.
record IsWritten (n : ℕ) (d : Ints) (w : Writing) : Type 0 where
  pub in_range : w.i ≤ n
  pub written : (k : ℕ) → w.thread_data k ≡ numbered w.i d k
  pub counted : w.progress + w.local_bytes ≡ 4 * w.i

store_vector-numbered :
    (i : ℕ) (d e : Ints)
    → ((k : ℕ) → e k ≡ numbered i d k)
    → (k : ℕ) → store_vector i e k ≡ numbered (i + 8) d k
unfolding store_vector
store_vector-numbered i d e h k = ground (arith, h k)

store_int-numbered :
    (i : ℕ) (d e : Ints)
    → ((k : ℕ) → e k ≡ numbered i d k)
    → (k : ℕ) → store_int i e k ≡ numbered (i + 1) d k
unfolding store_int
store_int-numbered i d e h k = ground (arith, h k)

write_vector-IsWritten :
    (n : ℕ) (d : Ints) (w : Writing)
    → w.i + 8 ≤ n
    → IsWritten n d w
    → IsWritten n d (write_vector w)
unfolding write_vector
write_vector-IsWritten n d w below h =
    let written = store_vector-numbered w.i d w.thread_data h.written in
    if_both (IsWritten n d) _ _ _
      (record { in_range = below; written = written; counted = omega (arith, h.counted) })
      (record { in_range = below; written = written; counted = omega (arith, h.counted) })

write_vector-i : (w : Writing) → (write_vector w).i ≡ w.i + 8
unfolding write_vector
write_vector-i w = if_both (λ (v : Writing). v.i ≡ w.i + 8) _ _ _ refl refl

write_vectors-IsWritten :
    (fuel n : ℕ) (d : Ints) (w : Writing)
    → n < w.i + 8 * fuel + 8
    → IsWritten n d w
    → IsWritten n d (write_vectors fuel n w) × (n < (write_vectors fuel n w).i + 8)
unfolding write_vectors
write_vectors-IsWritten zero n d w enough h = (h, omega arith)
write_vectors-IsWritten (suc fuel) n d w enough h = elim (dec_le (w.i + 8) n) [
  | yes below ↦ rw (le→leb (w.i + 8) n below) (
      write_vectors-IsWritten fuel n d (write_vector w) (omega (arith, write_vector-i w))
        (write_vector-IsWritten n d w below h))
  | no above ↦ rw (lt→leb (w.i + 8) n (omega arith)) (h, omega arith)
]

write_rest_lem :
    (left i : ℕ) (d : Ints) (s : Ints × ℕ)
    → ((k : ℕ) → s.0 k ≡ numbered i d k)
    → ((k : ℕ) → (write_rest left i s).0 k ≡ numbered (i + left) d k)
      × ((write_rest left i s).1 ≡ s.1 + 4 * left)
unfolding write_rest
write_rest_lem zero i d s h =
    let e : i ≡ i + 0 = omega arith in (λ k. h k ∙ ap (λ j. numbered j d k) e, omega arith)
write_rest_lem (suc left) i d s h =
    let e : i + 1 + left ≡ i + suc left = omega arith in
    let rest =
      write_rest_lem left (i + 1) d (store_int i (s.0), s.1 + 4) (store_int-numbered i d (s.0) h) in
    (λ k. rest.0 k ∙ ap (λ j. numbered j d k) e, rest.1 ∙ (omega arith))

finish_write :
    (n : ℕ) (d : Ints) (w : Writing)
    → IsWritten n d w
    → let s = write_rest (n - w.i) w.i (w.thread_data, w.local_bytes) in
      ((k : ℕ) → s.0 k ≡ numbered n d k) × (w.progress + s.1 ≡ 4 * n)
finish_write n d w h =
    let e : w.i + (n - w.i) ≡ n = omega (arith, h.in_range) in
    let rest = write_rest_lem (n - w.i) w.i d (w.thread_data, w.local_bytes) h.written in
    (λ k. rest.0 k ∙ ap (λ j. numbered j d k) e, omega (arith, rest.1, h.counted, h.in_range))

-- The thread writes to each of its `n` elements the element's index, modulo 2 ^ 32, changes no element
-- behind them, and reports four bytes for each.
pub sequential_write_lem :
    (n : ℕ) (d : Ints)
    → ((k : ℕ) → (sequential_write n d).0 k ≡ numbered n d k) × ((sequential_write n d).1 ≡ 4 * n)
unfolding sequential_write
sequential_write_lem n d =
    let start : Writing = record { i = 0; thread_data = d; local_bytes = 0; progress = 0 } in
    finish_write n d (write_vectors n n start) (
      (write_vectors-IsWritten n n d start (omega arith)
        (record { in_range = omega arith; written = λ k. ground arith; counted = refl })).0)
