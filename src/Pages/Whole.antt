-- ===== src/Pages/Whole.antt =====
-- The lengths that `xaligned_alloc` of the tests under custom-test asks for.
use mio_xcena.Base.{
  ℕ, ◌+◌, ◌-◌, ◌%◌, ◌^◌, ◌≤◌, ◌<◌, ◌≡◌, ◌⊎◌, inl, inr, refl, ◌||◌, ◌==◌, ltb, size_max, Bool-cases,
  eq_or_ne, Option, none, arith,
}
use mio_xcena.Pages.{huge_page, page_len, xaligned_alloc, hugealloc}

-- Whole pages that hold `bytes` bytes, and no page more.
pub record Holds (bytes len : ℕ) : Type 0 where
  pub enough : bytes ≤ len
  pub tight : len < bytes + 2 ^ 21
  pub whole : len % 2 ^ 21 ≡ 0

page_len-Holds : (bytes : ℕ) → bytes ≤ 2 ^ 64 - 2 ^ 21 → Holds bytes (page_len bytes)
unfolding page_len
page_len-Holds bytes le = omega arith

page_len-wraps : (bytes : ℕ) → bytes < 2 ^ 64 → 2 ^ 64 - 2 ^ 21 < bytes → page_len bytes ≡ 0
unfolding page_len
page_len-wraps bytes lt gt = omega arith

-- For any number of bytes of type `size_t`: if `xaligned_alloc` of test3-mt.c calls `mmap` (its answer
-- is that of `mmap` on some length, for every `mmap`), that length holds the bytes in whole pages, no
-- page more than needed; and if it does not, then the number is 0, or `xaligned_alloc` of
-- test2-rdma-fin.c, which has no such check, asks `posix_memalign` for 0 bytes.
pub hugealloc_lem :
    (bytes : ℕ)
    → bytes < 2 ^ 64
    → ((len : ℕ) × ((mmap : ℕ → Option ℕ) → hugealloc mmap bytes ≡ mmap len) × Holds bytes len)
      ⊎ (((mmap : ℕ → Option ℕ) → hugealloc mmap bytes ≡ none)
          × ((bytes ≡ 0)
              ⊎ ((memalign : ℕ → ℕ → Option ℕ)
                  → xaligned_alloc memalign bytes ≡ memalign huge_page 0)))
unfolding hugealloc xaligned_alloc
hugealloc_lem bytes lt = elim (Bool-cases (bytes == 0 || ltb (size_max - (huge_page - 1)) bytes)) [
  | inr fits ↦ inl (page_len bytes, λ mmap. rw fits refl, page_len-Holds bytes (ground arith))
  | inl refused ↦ inr (
    λ mmap. rw refused refl,
    elim (eq_or_ne bytes 0) [
      | inl e ↦ inl e
      | inr ne ↦
          let wraps = page_len-wraps bytes lt (ground arith) in inr (λ memalign. rw wraps refl)
    ],
  )
]
