-- ===== src/Base/Bytes.antt =====
-- Byte memory: `memset`, the copy of a struct of `uint64_t` fields in and out (little endian, as on
-- the x86-64 target), and what a reader finds there.
use Prim.Native.Nat.{ℕ, zero, suc, ◌+◌, ◌-◌, ◌*◌, ◌/◌, ◌%◌, ◌^◌, ◌<◌}
use mathlib.Core.Path.{◌≡◌, ◌∙◌, ap₂}
use mathlib.Core.Bool.{◌&&◌}
use mathlib.Core.List.{List, [], ◌∷◌}
use native.Mathlib.Nat.{add-zero}
use native.Mathlib.Omega.{arith}
use mio_xcena.Base.Tests.{ltb, leb, if◌then◌else◌}

-- The byte at each offset from the start of the store.
abbrev pub Memory : Type 0
Memory = ℕ → ℕ

unfoldable pub memset : Memory → (dst value n : ℕ) → Memory
memset m dst value n a = if leb dst a && ltb a (dst + n) then value else m a

-- Byte `k` of a number, least significant first.
abbrev pub byte_at : ℕ → ℕ → ℕ
byte_at zero v = v % 256
byte_at (suc k) v = byte_at k (v / 256)

abbrev pub field_at : List ℕ → ℕ → ℕ
field_at [] i = 0
field_at (v ∷ vs) zero = v
field_at (v ∷ vs) (suc i) = field_at vs i

abbrev pub count_fields : List ℕ → ℕ
count_fields [] = 0
count_fields (v ∷ vs) = suc (count_fields vs)

abbrev pub struct_byte : List ℕ → ℕ → ℕ
struct_byte fields j = byte_at (j % 8) (field_at fields (j / 8))

-- `memcpy(dst, &tag, sizeof(tag))` for a struct of 64-bit fields.
unfoldable pub copy_struct : Memory → (dst : ℕ) → List ℕ → Memory
copy_struct m dst fields a =
    if leb dst a && ltb a (dst + 8 * count_fields fields) then struct_byte fields (a - dst) else m a

-- `n` bytes read as a number.
unfoldable pub load_bytes : ℕ → Memory → ℕ → ℕ
load_bytes zero m a = 0
load_bytes (suc n) m a = m a + 256 * load_bytes n m (a + 1)

-- Field `i` of a struct copied out from `src`.
unfoldable pub load_field : Memory → (src i : ℕ) → ℕ
load_field m src i = load_bytes 8 m (src + 8 * i)

abbrev pub Fits : ℕ → ℕ → Type 0
Fits zero v = v ≡ 0
Fits (suc n) v = Fits n (v / 256)

pub u64-Fits : (v : ℕ) → v < 2 ^ 64 → Fits 8 v
u64-Fits v h = omega arith

load_bytes-eq :
    (n : ℕ) (m : Memory) (a v : ℕ)
    → Fits n v
    → ((k : ℕ) → k < n → m (a + k) ≡ byte_at k v)
    → load_bytes n m a ≡ v
unfolding load_bytes
load_bytes-eq zero m a v fits at = omega arith
load_bytes-eq (suc n) m a v fits at = omega (
  arith,
  rw add-zero at (at 0 (omega arith)),
  load_bytes-eq n m (a + 1) (v / 256) fits
      (λ k lt. let e : a + 1 + k ≡ a + suc k = omega arith in rw e (at (suc k) (omega arith))),
)

-- A field is read back wherever the bytes of its struct stand.
pub load_field-eq :
    (m : Memory) (src : ℕ) (fields : List ℕ) (i : ℕ)
    → i < count_fields fields
    → field_at fields i < 2 ^ 64
    → ((j : ℕ) → j < 8 * count_fields fields → m (src + j) ≡ struct_byte fields j)
    → load_field m src i ≡ field_at fields i
unfolding load_field
load_field-eq m src fields i lt small at =
    load_bytes-eq 8 m (src + 8 * i) (field_at fields i) (u64-Fits _ small) λ k k_lt.
      let shift : src + 8 * i + k ≡ src + (8 * i + k) = omega arith in
      let byte : (8 * i + k) % 8 ≡ k = omega arith in
      let field : (8 * i + k) / 8 ≡ i = omega arith in
      rw shift
        (at (8 * i + k) (omega arith) ∙ ap₂ (λ b f. byte_at b (field_at fields f)) byte field)
