-- ===== src/Bench/Summed.antt =====
-- `measureSequentialRead` (src/benchmark.cpp) reads every element of a thread's share once.
use native.Mathlib.Decide.{dec_le}
use mio_xcena.Base.{
  ℕ, zero, suc, ◌+◌, ◌-◌, ◌*◌, ◌%◌, ◌^◌, ◌<◌, ◌≤◌, ◌≡◌, refl, ap, sym, ◌∙◌, arith, le→leb, lt→leb,
  if_both,
}
use mio_xcena.Bench.Sequential.{
  Ints, Reading, add_vector, read_vector, read_vectors, add_int, sum_lanes, read_rest,
  sequential_read,
}

-- The sum of the first `n` elements.
abbrev pub sum_to : ℕ → Ints → ℕ
sum_to zero d = 0
sum_to (suc n) d = sum_to n d + d n

pub sum_to-next : (d : Ints) (m n : ℕ) → m ≡ n + 1 → sum_to m d ≡ sum_to n d + d n
sum_to-next d m n e = let next : m ≡ suc n = omega arith in ap (λ k. sum_to k d) next

sum_to-eight :
    (i : ℕ) (d : Ints)
    → sum_to (i + 8) d
      ≡ sum_to i d
        + (d i + d (i + 1) + d (i + 2) + d (i + 3) + d (i + 4) + d (i + 5) + d (i + 6) + d (i + 7))
sum_to-eight i d = omega (
  arith,
  sum_to-next d (i + 1) i refl,
  sum_to-next d (i + 2) (i + 1) (omega arith),
  sum_to-next d (i + 3) (i + 2) (omega arith),
  sum_to-next d (i + 4) (i + 3) (omega arith),
  sum_to-next d (i + 5) (i + 4) (omega arith),
  sum_to-next d (i + 6) (i + 5) (omega arith),
  sum_to-next d (i + 7) (i + 6) (omega arith),
  sum_to-next d (i + 8) (i + 7) (omega arith),
)

abbrev lanes : (ℕ → ℕ) → ℕ
lanes a = a 0 + a 1 + a 2 + a 3 + a 4 + a 5 + a 6 + a 7

lanes-add_vector :
    (a : ℕ → ℕ) (d : Ints) (i : ℕ)
    → lanes (add_vector a d i) % 2 ^ 32
      ≡ (lanes a
          + (d i
              + d (i + 1)
              + d (i + 2)
              + d (i + 3)
              + d (i + 4)
              + d (i + 5)
              + d (i + 6)
              + d (i + 7)))
        % 2 ^ 32
unfolding add_vector
lanes-add_vector a d i = let first : d (i + 0) ≡ d i = ap d (omega arith) in omega (arith, first)

-- After the vectors before `i`.
record IsRead (n : ℕ) (d : Ints) (r : Reading) : Type 0 where
  pub in_range : r.i ≤ n
  pub summed : lanes r.acc % 2 ^ 32 ≡ sum_to r.i d % 2 ^ 32
  pub counted : r.progress + r.local_bytes ≡ 4 * r.i

add_int-mod : (s x : ℕ) → add_int s x % 2 ^ 32 ≡ (s + x) % 2 ^ 32
add_int-mod s x = ground arith

mod_add : (s t x : ℕ) → s % 2 ^ 32 ≡ t % 2 ^ 32 → (s + x) % 2 ^ 32 ≡ (t + x) % 2 ^ 32
mod_add s t x h = omega arith

-- A sum that goes with the first `i` elements goes with the next one.
add_int-next :
    (s i : ℕ) (d : Ints)
    → s % 2 ^ 32 ≡ sum_to i d % 2 ^ 32
    → add_int s (d i) % 2 ^ 32 ≡ sum_to (i + 1) d % 2 ^ 32
add_int-next s i d h =
    add_int-mod s (d i)
    ∙ mod_add s (sum_to i d) (d i) h
    ∙ ap (λ k. k % 2 ^ 32) (sym (sum_to-next d (i + 1) i refl))

sum_lanes-mod :
    (left j : ℕ) (a : ℕ → ℕ) (s : ℕ)
    → s % 2 ^ 32 ≡ sum_to j a % 2 ^ 32
    → sum_lanes left j a s % 2 ^ 32 ≡ sum_to (j + left) a % 2 ^ 32
unfolding sum_lanes
sum_lanes-mod zero j a s h = let e : j ≡ j + 0 = omega arith in h ∙ ap (λ k. sum_to k a % 2 ^ 32) e
sum_lanes-mod (suc left) j a s h =
    let e : j + 1 + left ≡ j + suc left = omega arith in
    sum_lanes-mod left (j + 1) a (add_int s (a j)) (add_int-next s j a h)
    ∙ ap (λ k. sum_to k a % 2 ^ 32) e

all_lanes : (a : ℕ → ℕ) → sum_to 8 a ≡ lanes a
all_lanes a = omega arith

read_vector-IsRead :
    (n : ℕ) (d : Ints) (r : Reading) → r.i + 8 ≤ n → IsRead n d r → IsRead n d (read_vector d r)
unfolding read_vector
read_vector-IsRead n d r below h =
    let summed : lanes (add_vector r.acc d r.i) % 2 ^ 32 ≡ sum_to (r.i + 8) d % 2 ^ 32 =
      omega (arith, lanes-add_vector r.acc d r.i, sum_to-eight r.i d, h.summed) in
    if_both (IsRead n d) _ _ _
      (record { in_range = below; summed = summed; counted = omega (arith, h.counted) })
      (record { in_range = below; summed = summed; counted = omega (arith, h.counted) })

read_vector-i : (d : Ints) (r : Reading) → (read_vector d r).i ≡ r.i + 8
unfolding read_vector
read_vector-i d r = if_both (λ (s : Reading). s.i ≡ r.i + 8) _ _ _ refl refl

read_vectors-IsRead :
    (fuel n : ℕ) (d : Ints) (r : Reading)
    → n < r.i + 8 * fuel + 8
    → IsRead n d r
    → IsRead n d (read_vectors fuel n d r) × (n < (read_vectors fuel n d r).i + 8)
unfolding read_vectors
read_vectors-IsRead zero n d r enough h = (h, omega arith)
read_vectors-IsRead (suc fuel) n d r enough h = elim (dec_le (r.i + 8) n) [
  | yes below ↦ rw (le→leb (r.i + 8) n below) (
      read_vectors-IsRead fuel n d (read_vector d r) (omega (arith, read_vector-i d r))
        (read_vector-IsRead n d r below h))
  | no above ↦ rw (lt→leb (r.i + 8) n (omega arith)) (h, omega arith)
]

read_rest_lem :
    (left i : ℕ) (d : Ints) (s : ℕ × ℕ)
    → s.0 % 2 ^ 32 ≡ sum_to i d % 2 ^ 32
    → ((read_rest left i d s).0 % 2 ^ 32 ≡ sum_to (i + left) d % 2 ^ 32)
      × ((read_rest left i d s).1 ≡ s.1 + 4 * left)
unfolding read_rest
read_rest_lem zero i d s h =
    let e : i ≡ i + 0 = omega arith in (h ∙ ap (λ k. sum_to k d % 2 ^ 32) e, omega arith)
read_rest_lem (suc left) i d s h =
    let e : i + 1 + left ≡ i + suc left = omega arith in
    let rest =
      read_rest_lem left (i + 1) d (add_int (s.0) (d i), s.1 + 4) (add_int-next (s.0) i d h) in
    (rest.0 ∙ ap (λ k. sum_to k d % 2 ^ 32) e, rest.1 ∙ (omega arith))

-- What is left after the vectors.
finish_read :
    (n : ℕ) (d : Ints) (r : Reading)
    → IsRead n d r
    → let s = read_rest (n - r.i) r.i d (sum_lanes 8 0 r.acc 0, r.local_bytes) in
      (s.0 % 2 ^ 32 ≡ sum_to n d % 2 ^ 32) × (r.progress + s.1 ≡ 4 * n)
finish_read n d r h =
    let e : r.i + (n - r.i) ≡ n = omega (arith, h.in_range) in
    let lanes_read =
      sum_lanes-mod 8 0 r.acc 0 refl ∙ ap (λ k. k % 2 ^ 32) (all_lanes r.acc) ∙ h.summed in
    let rest = read_rest_lem (n - r.i) r.i d (sum_lanes 8 0 r.acc 0, r.local_bytes) lanes_read in
    (rest.0 ∙ ap (λ k. sum_to k d % 2 ^ 32) e, omega (arith, rest.1, h.counted, h.in_range))

-- The thread adds up each of its elements once, modulo 2 ^ 32, and reports four bytes for each.
pub sequential_read_lem :
    (n : ℕ) (d : Ints)
    → ((sequential_read n d).0 % 2 ^ 32 ≡ sum_to n d % 2 ^ 32) × ((sequential_read n d).1 ≡ 4 * n)
unfolding sequential_read
sequential_read_lem n d =
    let start : Reading = record { i = 0; acc = λ lane. 0; local_bytes = 0; progress = 0 } in
    finish_read n d (read_vectors n n d start) (
      (read_vectors-IsRead n n d start (omega arith)
        (record { in_range = omega arith; summed = refl; counted = refl })).0)
