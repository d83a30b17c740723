-- ===== src/Pages/Tests.antt =====
-- A request that the check of custom-test/test3-mt.c refuses.
use mio_xcena.Base.{ℕ, ◌-◌, ◌^◌, ◌≡◌, ◌*◌, ◌⊎◌, refl, Option, none, arith}
use mio_xcena.Pages.{huge_page, page_len, xaligned_alloc, hugealloc}
use mio_xcena.Pages.Whole.{Holds, hugealloc_lem}

three_megabytes : page_len (3 * 2 ^ 20) ≡ 4 * 2 ^ 20
unfolding page_len
three_megabytes = refl

hugealloc_lem_example :
    let bytes = 2 ^ 64 - 1 in
    ((len : ℕ) × ((mmap : ℕ → Option ℕ) → hugealloc mmap bytes ≡ mmap len) × Holds bytes len)
    ⊎ (((mmap : ℕ → Option ℕ) → hugealloc mmap bytes ≡ none)
        × ((bytes ≡ 0)
            ⊎ ((memalign : ℕ → ℕ → Option ℕ)
                → xaligned_alloc memalign bytes ≡ memalign huge_page 0)))
hugealloc_lem_example = hugealloc_lem (2 ^ 64 - 1) (omega arith)
