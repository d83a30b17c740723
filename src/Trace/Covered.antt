-- ===== src/Trace/Covered.antt =====
-- Merging the entries of a trace (src/tracing.cpp) loses no access.
use mio_xcena.Base.{
  ℕ, zero, suc, ◌+◌, ◌≤◌, ◌≡◌, refl, ap, ◌∙◌, arith, ◌==◌, ltb, leb, Bool, true, false, ◌&&◌,
  Bool-cases, inl, inr, if◌then◌else◌, List, [], ◌∷◌, ◌++◌, take, length,
}
use mio_xcena.Trace.{TraceEntry, Sort, can_merge, merge_entries, merge_buffers, limit_trace}

abbrev pub sum_by : (TraceEntry → ℕ) → List TraceEntry → ℕ
sum_by f [] = 0
sum_by f (e ∷ es) = f e + sum_by f es

-- How often the byte at `x` is accessed in the way `kind` by an entry.
abbrev pub accesses : (x kind : ℕ) → TraceEntry → ℕ
accesses x kind e =
    if e.access_type == kind && (leb e.address x && ltb x (e.address + e.size)) then 1 else 0

abbrev pub sum_buffers : (TraceEntry → ℕ) → List (List TraceEntry) → ℕ
sum_buffers f [] = 0
sum_buffers f (buf ∷ bufs) = sum_by f buf + sum_buffers f bufs

-- Sorting changes no sum, as it only moves entries.
pub record IsSort (sort : Sort) : Type 0 where
  pub keeps : (f : TraceEntry → ℕ) (es : List TraceEntry) → sum_by f (sort es) ≡ sum_by f es

sum_by-append :
    (f : TraceEntry → ℕ) (es ds : List TraceEntry) → sum_by f (es ++ ds) ≡ sum_by f es + sum_by f ds
sum_by-append f [] ds = omega arith
sum_by-append f (e ∷ es) ds = omega (arith, sum_by-append f es ds)

accesses-merged :
    (x kind : ℕ) (a b : TraceEntry)
    → can_merge a b ≡ true
    → accesses x kind (record a { size = 64 }) ≡ accesses x kind a + accesses x kind b
unfolding can_merge
accesses-merged x kind a b e = ground arith

either :
    (t : Bool) (p q : List TraceEntry) → (elim t [ true ↦ p | false ↦ q ]) ≡ (if t then p else q)
either true p q = refl
either false p q = refl

merge_step :
    (a b : TraceEntry) (buf : List TraceEntry)
    → merge_entries (a ∷ (b ∷ buf)) ≡ (
        if can_merge a b
        then record a { size = 64 } ∷ merge_entries buf
        else a ∷ merge_entries (b ∷ buf))
unfolding merge_entries
merge_step a b buf =
    either (can_merge a b) (record a { size = 64 } ∷ merge_entries buf)
      (a ∷ merge_entries (b ∷ buf))

merge_entries-accesses :
    (x kind : ℕ) (buf : List TraceEntry)
    → sum_by (accesses x kind) (merge_entries buf) ≡ sum_by (accesses x kind) buf
unfolding merge_entries
merge_entries-accesses x kind [] = refl
merge_entries-accesses x kind (a ∷ []) = refl
merge_entries-accesses x kind (a ∷ (b ∷ buf)) =
    let merged = merge_entries-accesses x kind buf in
    let kept = merge_entries-accesses x kind (b ∷ buf) in
    ap (sum_by (accesses x kind)) (merge_step a b buf) ∙ elim (Bool-cases (can_merge a b)) [
      | inl on ↦ rw on (omega (arith, accesses-merged x kind a b on, merged))
      | inr off ↦ rw off (omega (arith, kept))
    ]

merge_buffers-accesses :
    (x kind : ℕ) (bufs : List (List TraceEntry))
    → sum_by (accesses x kind) (merge_buffers bufs) ≡ sum_buffers (accesses x kind) bufs
unfolding merge_buffers
merge_buffers-accesses x kind [] = refl
merge_buffers-accesses x kind (buf ∷ bufs) = omega (
  arith,
  sum_by-append (accesses x kind) (merge_entries buf) (merge_buffers bufs),
  merge_entries-accesses x kind buf,
  merge_buffers-accesses x kind bufs,
)

take-all : {A : Type 0} (n : ℕ) (xs : List A) → length xs ≤ n → take n xs ≡ xs
take-all zero [] h = refl
take-all zero (x ∷ xs) h = absurd (omega arith)
take-all (suc n) [] h = refl
take-all (suc n) (x ∷ xs) h = ap (λ ys. x ∷ ys) (take-all n xs (omega arith))

-- If `sort` only moves entries and at most 1000000 of them are left, then each byte is read, or written,
-- just as often by the entries that are saved as by those of the threads' buffers.
pub limit_trace-accesses :
    (sort : Sort) (bufs : List (List TraceEntry)) (x kind : ℕ)
    → IsSort sort
    → length (sort (merge_buffers bufs)) ≤ 1000000
    → sum_by (accesses x kind) (limit_trace sort bufs) ≡ sum_buffers (accesses x kind) bufs
unfolding limit_trace
limit_trace-accesses sort bufs x kind law few =
    ap (sum_by (accesses x kind)) (take-all 1000000 (sort (merge_buffers bufs)) few)
    ∙ law.keeps (accesses x kind) (merge_buffers bufs)
    ∙ merge_buffers-accesses x kind bufs
