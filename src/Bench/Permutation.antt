-- ===== src/Bench/Permutation.antt =====
-- The shuffled indices of src/benchmark.cpp, `measurePointerChaseWithLoad`, are a permutation.
use mio_xcena.Base.{ℕ, zero, suc, ◌-◌, ◌<◌, ◌≤◌, ◌≡◌, refl, ◌==◌, if◌then◌else◌, ap, ◌∙◌, arith}
use mio_xcena.Bench.Chase.{Indices, swap, shuffle, shuffled}

-- The indices below `n` are a permutation, with the place of each.
pub record IsPermutation (n : ℕ) (indices : Indices) : Type 0 where
  pub place : ℕ → ℕ
  pub index_lt : (k : ℕ) → k < n → indices k < n
  pub place_lt : (v : ℕ) → v < n → place v < n
  pub place-index : (k : ℕ) → k < n → place (indices k) ≡ k
  pub index-place : (v : ℕ) → v < n → indices (place v) ≡ v

abbrev swapped : (i j k : ℕ) → ℕ
swapped i j k = if k == i then j else if k == j then i else k

swap-eq : (i j : ℕ) (indices : Indices) (k : ℕ) → swap i j indices k ≡ indices (swapped i j k)
unfolding swap
swap-eq i j indices k = ground arith

swapped_lt : (n i j k : ℕ) → i < n → j < n → k < n → swapped i j k < n
swapped_lt n i j k a b c = ground arith

swapped_twice : (i j k : ℕ) → swapped i j (swapped i j k) ≡ k
swapped_twice i j k = ground arith

swap-IsPermutation :
    (n i j : ℕ) (indices : Indices)
    → i < n
    → j < n
    → IsPermutation n indices
    → IsPermutation n (swap i j indices)
swap-IsPermutation n i j indices a b p = record {
  place = λ v. swapped i j (p.place v);
  index_lt =
      λ k lt. rw (swap-eq i j indices k) (p.index_lt (swapped i j k) (swapped_lt n i j k a b lt));
  place_lt = λ v lt. swapped_lt n i j (p.place v) a b (p.place_lt v lt);
  place-index = λ k lt.
      ap (λ m. swapped i j (p.place m)) (swap-eq i j indices k)
      ∙ ap (swapped i j) (p.place-index (swapped i j k) (swapped_lt n i j k a b lt))
      ∙ swapped_twice i j k;
  index-place = λ v lt.
      swap-eq i j indices (swapped i j (p.place v))
      ∙ ap indices (swapped_twice i j (p.place v))
      ∙ p.index-place v lt;
}

shuffle-IsPermutation :
    (n i : ℕ) (choice : ℕ → ℕ) (indices : Indices)
    → i < n
    → ((k : ℕ) → choice k ≤ k)
    → IsPermutation n indices
    → IsPermutation n (shuffle i choice indices)
unfolding shuffle
shuffle-IsPermutation n zero choice indices lt low p = p
shuffle-IsPermutation n (suc i) choice indices lt low p =
    shuffle-IsPermutation n i choice _ (omega arith) low
      (swap-IsPermutation n (suc i) (choice (suc i)) indices lt (omega (arith, low (suc i))) p)

pub shuffled-IsPermutation :
    (n : ℕ) (choice : ℕ → ℕ)
    → 1 ≤ n
    → ((k : ℕ) → choice k ≤ k)
    → IsPermutation n (shuffled n choice)
unfolding shuffled
shuffled-IsPermutation n choice some low =
    shuffle-IsPermutation n (n - 1) choice (λ i. i) (omega arith) low
      (record {
        place = λ v. v;
        index_lt = λ k lt. lt;
        place_lt = λ v lt. lt;
        place-index = λ k lt. refl;
        index-place = λ v lt. refl;
      })
