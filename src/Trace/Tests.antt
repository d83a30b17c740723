-- ===== src/Trace/Tests.antt =====
-- Two small buffers, and a sort that leaves them as they are.
use mio_xcena.Base.{ℕ, ◌+◌, ◌≡◌, refl, arith, List, [], ◌∷◌, true}
use mio_xcena.Trace.{
  TraceEntry, Sort, can_merge, merge_entries, merge_buffers, limit_trace, row_of, save_trace,
}
use mio_xcena.Trace.Covered.{IsSort, sum_by, sum_buffers, accesses, limit_trace-accesses}

abbrev read_at : ℕ → TraceEntry
read_at a = record { timestamp = a; address = 4096 + a; size = 32; access_type = 0 }

abbrev buffers : List (List TraceEntry)
buffers = (read_at 0 ∷ read_at 32 ∷ read_at 96 ∷ []) ∷ (read_at 128 ∷ []) ∷ []

abbrev leave_alone : Sort
leave_alone es = es

saved :
    save_trace leave_alone 4096 buffers
    ≡ record { offset = 0; size = 64; is_read = true }
      ∷ record { offset = 96; size = 32; is_read = true }
      ∷ record { offset = 128; size = 32; is_read = true }
      ∷ []
unfolding save_trace row_of limit_trace merge_buffers merge_entries can_merge
saved = refl

leave_alone-IsSort : IsSort leave_alone
leave_alone-IsSort = record { keeps = λ f es. refl }

limit_trace-accesses_example :
    sum_by (accesses 4130 0) (limit_trace leave_alone buffers)
    ≡ sum_buffers (accesses 4130 0) buffers
unfolding merge_buffers merge_entries can_merge
limit_trace-accesses_example =
    limit_trace-accesses leave_alone buffers 4130 0 leave_alone-IsSort (omega arith)
