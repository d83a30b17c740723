-- ===== src/Exits.antt =====
-- How `main` of custom-test/test2.c ends: it allocates the store with `posix_memalign`, opens the result file if
-- one is named, runs its loops, which write lines, and closes and frees on every way out.
use mio_xcena.Base.{
  ℕ, ◌≡◌, refl, ap, Bool, true, false, not, if◌then◌else◌, Option, none, some, ◌>>=◌, List, [], ◌∷◌,
  ◌++◌,
}

-- The lines written, and whether no call has failed.
pub record Swept (Line : Type 0) : Type 0 where
  pub rows : List Line
  pub success : Bool

-- Lines before those of the rest.
abbrev pub and_later : {Line : Type 0} → List Line → Option (Swept Line) → Option (Swept Line)
and_later rows none = none
and_later rows (some s) = some (record { rows = rows ++ s.rows; success = s.success })

-- What `main` takes from the system and gives back.
pub data Use : Type 0 where
  allocate_store free_store open_csv close_csv : Use

-- The value that `main` returns, the lines written, and what it has taken and given back, in order.
pub record Exit (Line : Type 0) : Type 0 where
  pub code : ℕ
  pub rows : List Line
  pub uses : List Use

abbrev pub early : {Line : Type 0} → (code : ℕ) → List Use → Exit Line
early code uses = record { code = code; rows = []; uses = uses }

-- `csv_path[0]` is not 0.
abbrev pub has_path : List ℕ → Bool
has_path [] = false
has_path (x ∷ xs) = true

-- Behind the loops, and on their exits: `fclose` and `free`.
abbrev pub close : {Line : Type 0} → (csv : Bool) → Option (Swept Line) → Option (Exit Line)
close csv none = none
close csv (some s) = some (record {
  code = if s.success then 0 else 1;
  rows = s.rows;
  uses =
      if csv
      then allocate_store ∷ open_csv ∷ close_csv ∷ free_store ∷ []
      else allocate_store ∷ free_store ∷ [];
})

-- Whether the store is held and the file open; `none` if something is taken twice, or given back that is
-- not held.
abbrev use_one : Use → Bool × Bool → Option (Bool × Bool)
use_one allocate_store (held, open_file) = if held then none else some (true, open_file)
use_one free_store (held, open_file) = if held then some (false, open_file) else none
use_one open_csv (held, open_file) = if open_file then none else some (held, true)
use_one close_csv (held, open_file) = if open_file then some (held, false) else none

abbrev pub use_all : List Use → Bool × Bool → Option (Bool × Bool)
use_all [] h = some h
use_all (u ∷ us) h = use_one u h >>= use_all us

-- All is given back.
abbrev pub IsSettled : List Use → Type 0
IsSettled us = use_all us (false, false) ≡ some (false, false)

module _ {Line : Type 0} where
  close-IsSettled :
      (csv : Bool) (o : Option (Swept Line))
      → (s : Swept Line) × (o ≡ some s)
      → (e : Exit Line) × (close csv o ≡ some e) × IsSettled e.uses
  close-IsSettled true o (s, e) = (_, ap (close true) e, refl)
  close-IsSettled false o (s, e) = (_, ap (close false) e, refl)

  -- The tests of the store and of the file, when the loops end.
  pub tests-IsSettled :
      (has_store closed csv : Bool) (o : Option (Swept Line))
      → (s : Swept Line) × (o ≡ some s)
      → (e : Exit Line) × ((if not has_store
            then some (early 1 [])
            else if closed
            then some (early 1 (allocate_store ∷ free_store ∷ []))
            else close csv o)
          ≡ some e)
        × IsSettled e.uses
  tests-IsSettled false closed csv o h = (early 1 [], refl, refl)
  tests-IsSettled true true csv o h = (early 1 (allocate_store ∷ free_store ∷ []), refl, refl)
  tests-IsSettled true false csv o h = close-IsSettled csv o h
