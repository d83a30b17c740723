-- ===== src/Pages.antt =====
-- `xaligned_alloc`: the memory for the store and the buffers, in huge pages of 2 MiB, as
-- custom-test/test2-rdma-fin.c and test3-mt.c allocate it. `mmap` and `posix_memalign`
-- are parameters: what they answer to a length, `none` for a failure.
pub mod Whole
mod Tests
use mio_xcena.Base.{
  ℕ, ◌+◌, ◌-◌, ◌*◌, ◌/◌, ◌^◌, ◌||◌, ◌==◌, ltb, if◌then◌else◌, Option, none, some, u64, size_max,
}

-- HUGEPAGE_2MB
abbrev pub huge_page : ℕ
huge_page = 2 ^ 21

-- `len`: the mask `~(HUGEPAGE_2MB - 1)` clears the 21 low bits.
unfoldable pub page_len : (bytes : ℕ) → ℕ
page_len bytes = u64 (bytes + huge_page - 1) / huge_page * huge_page

-- test2-rdma-fin.c
unfoldable pub xaligned_alloc : (posix_memalign : ℕ → ℕ → Option ℕ) → (bytes : ℕ) → Option ℕ
unfolding page_len
xaligned_alloc posix_memalign bytes = posix_memalign huge_page (page_len bytes)

-- test3-mt.c
unfoldable pub hugealloc : (mmap : ℕ → Option ℕ) → (bytes : ℕ) → Option ℕ
unfolding page_len
hugealloc mmap bytes =
    if bytes == 0 || ltb (size_max - (huge_page - 1)) bytes then none else mmap (page_len bytes)
