-- ===== src/Trace.antt =====
-- src/tracing.cpp: the traces of the threads are merged, sorted, cut and written.
--
-- `sort` of the standard library is a parameter, since it does not fix the order of equal timestamps.
-- The files and the mutex are left out.
pub mod Covered
pub mod Tests
use mio_xcena.Base.{
  ℕ, zero, suc, ◌+◌, ◌-◌, ◌^◌, ◌==◌, ltb, leb, Bool, true, false, ◌&&◌, if◌then◌else◌, List, [],
  ◌∷◌, ◌++◌, take, u64, map,
}

-- `access_type` is 0 for a read and 1 for a write.
pub record TraceEntry : Type 0 where
  pub timestamp : ℕ
  pub address : ℕ
  pub size : ℕ
  pub access_type : ℕ

-- The entries of two consecutive accesses of 32 bytes that lie together.
unfoldable pub can_merge : TraceEntry → TraceEntry → Bool
can_merge a b =
    a.size == 32
    && (b.size == 32 && (a.access_type == b.access_type && b.address == a.address + 32))

-- The loop over a thread's buffer.
unfoldable pub merge_entries : List TraceEntry → List TraceEntry
merge_entries [] = []
merge_entries (a ∷ []) = a ∷ []
merge_entries (a ∷ (b ∷ buf)) = elim (can_merge a b) [
  | true ↦ record a { size = 64 } ∷ merge_entries buf
  | false ↦ a ∷ merge_entries (b ∷ buf)
]

-- Steps 1 and 2: each buffer processed, one behind the other.
unfoldable pub merge_buffers : List (List TraceEntry) → List TraceEntry
merge_buffers [] = []
merge_buffers (buf ∷ bufs) = merge_entries buf ++ merge_buffers bufs

abbrev pub Sort : Type 0
Sort = List TraceEntry → List TraceEntry

-- Steps 3 and 4.
unfoldable pub limit_trace : Sort → List (List TraceEntry) → List TraceEntry
limit_trace sort bufs = take 1000000 (sort (merge_buffers bufs))

-- A line of the file: the offset, the size, and whether it is a read.
pub record Row : Type 0 where
  pub offset : ℕ
  pub size : ℕ
  pub is_read : Bool

unfoldable pub row_of : (base_address : ℕ) → TraceEntry → Row
row_of base e = record {
  offset = u64 (e.address + 2 ^ 64 - base);
  size = e.size;
  is_read = e.access_type == 0;
}

unfoldable pub save_trace : Sort → (base_address : ℕ) → List (List TraceEntry) → List Row
save_trace sort base bufs = map (row_of base) (limit_trace sort bufs)

-- `collectTraceBuffer`: the buffers collected, and the thread's own, which is empty afterwards.
unfoldable pub collect_trace_buffer :
    List (List TraceEntry) → List TraceEntry → List (List TraceEntry) × List TraceEntry
collect_trace_buffer global buf = (global ++ (buf ∷ []), [])
