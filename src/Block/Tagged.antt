-- ===== src/Block/Tagged.antt =====
-- A block of the programs of custom-test: a struct of 64-bit fields, then one byte up to the end, as
-- `memset` and a `memcpy` of the tag leave it.
use mio_xcena.Base.{
  ℕ, ◌+◌, ◌-◌, ◌*◌, ◌<◌, ◌≤◌, ◌^◌, ◌≡◌, ◌∙◌, ◌⊎◌, List, ltb, lt→ltb, arith, Memory, if◌then◌else◌,
  memset, copy_struct, struct_byte, count_fields, field_at, load_field, load_field-eq,
}

-- The `n` bytes at `off` are those of `byte`.
abbrev pub Carries : Memory → (off n : ℕ) → (byte : ℕ → ℕ) → Type 0
Carries m off n byte = (j : ℕ) → j < n → m (off + j) ≡ byte j

abbrev pub tagged_byte : (fields : List ℕ) (fill j : ℕ) → ℕ
tagged_byte fields fill j = if ltb j (8 * count_fields fields) then struct_byte fields j else fill

tagged-at :
    (m : Memory) (dst n fill : ℕ) (fields : List ℕ) (j : ℕ)
    → 8 * count_fields fields ≤ n
    → j < n
    → copy_struct (memset m dst fill n) dst fields (dst + j) ≡ tagged_byte fields fill j
unfolding memset copy_struct
tagged-at m dst n fill fields j big lt =
    let back : dst + j - dst ≡ j = omega arith in rw back (ground arith)

pub tagged-Carries :
    (m : Memory) (dst n fill : ℕ) (fields : List ℕ)
    → 8 * count_fields fields ≤ n
    → Carries (copy_struct (memset m dst fill n) dst fields) dst n (tagged_byte fields fill)
tagged-Carries m dst n fill fields big j lt = tagged-at m dst n fill fields j big lt

pub tagged-outside :
    (m : Memory) (dst n fill : ℕ) (fields : List ℕ) (a : ℕ)
    → 8 * count_fields fields ≤ n
    → (a < dst) ⊎ (dst + n ≤ a)
    → copy_struct (memset m dst fill n) dst fields a ≡ m a
unfolding memset copy_struct
tagged-outside m dst n fill fields a big out = ground arith

pub field-Carries :
    (m : Memory) (off n fill : ℕ) (fields : List ℕ) (i : ℕ)
    → 8 * count_fields fields ≤ n
    → i < count_fields fields
    → field_at fields i < 2 ^ 64
    → Carries m off n (tagged_byte fields fill)
    → load_field m off i ≡ field_at fields i
field-Carries m off n fill fields i big lt small s =
    load_field-eq m off fields i lt small (λ j j_lt. s j (omega arith) ∙ tagged j j_lt)
  where
    tagged :
        (j : ℕ) → j < 8 * count_fields fields → tagged_byte fields fill j ≡ struct_byte fields j
    tagged j j_lt = rw (lt→ltb _ _ j_lt)
