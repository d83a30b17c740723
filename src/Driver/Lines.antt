-- ===== src/Driver/Lines.antt =====
-- The header and the result line of the result file (src/main.cpp, `main`) speak of the same tests.
use mathlib.Core.Path.{ap₂}
use mio_xcena.Base.{ℕ, ◌≡◌, refl, Bool, true, false, List, [], ◌∷◌, ◌++◌, bytes_of, ap}
use mio_xcena.Driver.Modes.{
  Test, seq_read, seq_write, random_read, random_write, stride_read, stride_write, zipfian_read,
  pointer_chase, Runs, on_runs, put, header_line, result_line, run_tests, measured,
}

-- The column's title.
abbrev pub title : Test → List ℕ
title seq_read = bytes_of " SeqRead(GB/s)"
title seq_write = bytes_of " SeqWrite(GB/s)"
title random_read = bytes_of " RandRead(GB/s)"
title random_write = bytes_of " RandWrite(GB/s)"
title stride_read = bytes_of " StrideRead(GB/s)"
title stride_write = bytes_of " StrideWrite(GB/s)"
title zipfian_read = bytes_of " ZipfianRead(GB/s)"
title pointer_chase = bytes_of " PointerChase(GB/s)"

abbrev pub all_tests : List Test
all_tests =
    seq_read ∷ seq_write ∷ random_read ∷ random_write ∷ stride_read ∷ stride_write ∷ zipfian_read
    ∷ pointer_chase ∷ []

abbrev keep : Bool → Test → List Test → List Test
keep true t ts = t ∷ ts
keep false t ts = ts

-- The tests of the list that run.
abbrev pub running : Runs → List Test → List Test
running r [] = []
running r (t ∷ ts) = keep (on_runs t r) t (running r ts)

-- A text for each test, one after the other, and the end of the line.
abbrev pub line : (Test → List ℕ) → List Test → List ℕ
line text [] = b'\n' ∷ []
line text (t ∷ ts) = text t ++ line text ts

put-keep :
    (text : Test → List ℕ) (shown : List ℕ) (b : Bool) (t : Test) (ts : List Test) (rest : List ℕ)
    → put b shown ≡ put b (text t)
    → rest ≡ line text ts
    → put b shown ++ rest ≡ line text (keep b t ts)
put-keep text shown true t ts rest same e = ap₂ ◌++◌ same e
put-keep text shown false t ts rest same e = e

module _ {Double : Type 0} (measure : Test → Double) (zero : Double) (print : Double → List ℕ) where
  put-measured :
      (b : Bool) (t : Test) → put b (print (measured measure zero b t)) ≡ put b (print (measure t))
  put-measured true t = refl
  put-measured false t = refl

-- The header names exactly the tests that run, and below each title the result line shows the bandwidth
-- that this very test measured, although the tests run in another order than the columns.
pub columns-agree :
    {Double : Type 0} (measure : Test → Double) (zero : Double) (print_int : ℕ → List ℕ)
    (print : Double → List ℕ) (n : ℕ) (r : Runs)
    → (header_line r ≡ bytes_of "# Threads" ++ line title (running r all_tests))
      × (result_line print_int print n r (run_tests measure zero r)
          ≡ print_int n ++ line (λ t. print (measure t)) (running r all_tests))
unfolding header_line result_line run_tests
columns-agree measure zero print_int print n r =
    let shows = put-measured measure zero print in
    let cell = put-keep (λ t. print (measure t)) in
    let name = put-keep title in
    (
      ap (λ l. bytes_of "# Threads" ++ l)
          (name _ r.seq_read seq_read _ _ refl (
            name _ r.seq_write seq_write _ _ refl (
              name _ r.random_read random_read _ _ refl (
                name _ r.random_write random_write _ _ refl (
                  name _ r.stride_read stride_read _ _ refl (
                    name _ r.stride_write stride_write _ _ refl (
                      name _ r.zipfian_read zipfian_read _ _ refl
                        (name _ r.pointer_chase pointer_chase [] _ refl refl)))))))),
      ap (λ l. print_int n ++ l)
          (cell _ r.seq_read seq_read _ _ (shows _ _) (
            cell _ r.seq_write seq_write _ _ (shows _ _) (
              cell _ r.random_read random_read _ _ (shows _ _) (
                cell _ r.random_write random_write _ _ (shows _ _) (
                  cell _ r.stride_read stride_read _ _ (shows _ _) (
                    cell _ r.stride_write stride_write _ _ (shows _ _) (
                      cell _ r.zipfian_read zipfian_read _ _ (shows _ _)
                        (cell _ r.pointer_chase pointer_chase [] _ (shows _ _) refl)))))))),
    )
