-- ===== src/Bench/Touch.antt =====
-- src/main_patched.cpp, `firstTouchData`: the bytes that are written to fault in each page. The program
-- is otherwise src/main.cpp with one more option.
use mathlib.Core.List.{Memᴰ}
use native.Mathlib.Decide.{dec_lt, dec_le}
use native.Mathlib.Nat.{div-mul-le_self, div-lt_iff_lt-mul, lt-div-mul-add}
use mio_xcena.Base.{
  ℕ, zero, suc, ◌+◌, ◌-◌, ◌*◌, ◌/◌, ◌%◌, ◌<◌, ◌≤◌, ◌≡◌, refl, ◌==◌, if◌then◌else◌, List, arith,
  eq_or_ne, inl, inr, ==_refl, ==_ne, lt→ltb, ◌≢◌,
}
use mio_xcena.Bench.Stride.{counter}

-- The bytes of thread `t`, which are more for the last thread.
unfoldable pub touch_share : (size num_threads t : ℕ) → ℕ
touch_share size num_threads t =
    let per_thread = size / num_threads in
    if t == num_threads - 1 then size - t * per_thread else per_thread

-- The offsets that thread `t` writes to, from its own start, and that start.
unfoldable pub touched : (size num_threads t : ℕ) → List ℕ
touched size num_threads t =
    let share = touch_share size num_threads t in counter share 0 share 4096

unfoldable pub touch_base : (size num_threads t : ℕ) → ℕ
touch_base size num_threads t = t * (size / num_threads)

counter-has :
    (k fuel at last step : ℕ)
    → k < fuel
    → at + k * step < last
    → Memᴰ (at + k * step) (counter fuel at last step)
unfolding counter
counter-has k zero at last step enough inside = absurd (omega arith)
counter-has zero (suc fuel) at last step enough inside =
    let e : at ≡ at + 0 * step = omega arith in
    rw (lt→ltb at last (omega arith), ← e) (Memᴰ.head refl)
counter-has (suc k) (suc fuel) at last step enough inside =
    let e : at + step + k * step ≡ at + suc k * step = grind arith in
    rw (lt→ltb at last (omega (arith, e)), ← e)
      (Memᴰ.tail (counter-has k fuel (at + step) last step (omega arith) (omega (arith, e))))

-- An offset that is a multiple of the page size and in the share is written to.
touched-has :
    (size n t k : ℕ) → k * 4096 < touch_share size n t → Memᴰ (k * 4096) (touched size n t)
unfolding touched
touched-has size n t k lt =
    let e : 0 + k * 4096 ≡ k * 4096 = omega arith in
    let has =
      counter-has k (touch_share size n t) 0 (touch_share size n t) 4096 (omega arith)
        (omega arith) in
    rw e at has

-- A byte of the page that begins at `x` is written by thread `t`.
abbrev pub TouchesPage : (size n t x : ℕ) → Type 0
TouchesPage size n t x =
    (off : ℕ) × Memᴰ off (touched size n t)
    × (x ≤ touch_base size n t + off)
    × (touch_base size n t + off < x + 4096)

-- The first page boundary at or behind a distance, counted from the thread's start.
abbrev pages_up : ℕ → ℕ
pages_up distance = (distance + 4095) / 4096

before_touch :
    (size n t x : ℕ)
    → touch_base size n t ≤ x
    → pages_up (x - touch_base size n t) * 4096 < touch_share size n t
    → TouchesPage size n t x
before_touch size n t x begins inside = (
  pages_up (x - touch_base size n t) * 4096,
  touched-has size n t (pages_up (x - touch_base size n t)) inside,
  omega arith,
  omega arith,
)

-- The thread whose first byte lies in the page.
first_touch :
    (size n t x : ℕ)
    → x ≤ touch_base size n t
    → touch_base size n t < x + 4096
    → 0 < touch_share size n t
    → TouchesPage size n t x
first_touch size n t x begins ends some =
    let first = touched-has size n t 0 (omega arith) in (0, first, omega arith, omega arith)

share_inner : (size n t : ℕ) → t ≢ n - 1 → touch_share size n t ≡ size / n
unfolding touch_share
share_inner size n t inner = rw (==_ne t (n - 1) inner) refl

share_last : (size n : ℕ) → touch_share size n (n - 1) ≡ size - (n - 1) * (size / n)
unfolding touch_share
share_last size n = rw (==_refl (n - 1)) refl

whole : (n per : ℕ) → 1 ≤ n → (n - 1) * per + per ≡ per * n
whole zero per some = absurd (omega arith)
whole (suc n) per some = grind arith

next_base : (t per : ℕ) → (t + 1) * per ≡ t * per + per
next_base t per = grind arith

shares_fit : (size n : ℕ) → 1 ≤ n → (n - 1) * (size / n) + size / n ≤ size
shares_fit size n some =
    let e : (n - 1) * (size / n) + size / n ≡ size / n * n = whole n (size / n) some in
    omega (arith, e, div-mul-le_self size n)

-- The last thread, if the page begins in its share.
touch-last :
    (size n p : ℕ)
    → 1 ≤ n
    → size % 4096 ≡ 0
    → p * 4096 < size
    → touch_base size n (n - 1) ≤ p * 4096
    → TouchesPage size n (n - 1) (p * 4096)
unfolding touch_base
touch-last size n p some pages inside begins =
    before_touch size n (n - 1) (p * 4096) begins
      (omega (arith, share_last size n, shares_fit size n some))

next_share : (size n t : ℕ) → t < n - 1 → 0 < size / n → 0 < touch_share size n (t + 1)
next_share size n t lt some = elim (eq_or_ne (t + 1) (n - 1)) [
  | inl last ↦ rw last (omega (arith, share_last size n, shares_fit size n (omega arith)))
  | inr inner ↦ omega (arith, share_inner size n (t + 1) inner)
]

-- Another thread, or the one after it.
touch-inner :
    (size n t p : ℕ)
    → t < n - 1
    → touch_base size n t ≤ p * 4096
    → p * 4096 < touch_base size n (t + 1)
    → (u : ℕ) × (u < n) × TouchesPage size n u (p * 4096)
unfolding touch_base
touch-inner size n t p lt begins ends =
    let per = size / n in
    let next = next_base t per in
    let inner = share_inner size n t (λ e. omega (arith, e)) in
    let some : 0 < touch_share size n (t + 1) = next_share size n t lt (omega (arith, next)) in
    elim (dec_lt (pages_up (p * 4096 - t * per) * 4096) per) [
      | yes fits ↦
          (t, omega arith, before_touch size n t (p * 4096) begins (omega (arith, inner, fits)))
      | no not_fits ↦ (
        t + 1,
        omega arith,
        first_touch size n (t + 1) (p * 4096) (omega arith) (omega (arith, next, not_fits)) some,
      )
    ]

positive_factor : (a b x : ℕ) → x < a * b → 0 < b
positive_factor a zero x lt = absurd (omega arith)
positive_factor a (suc b) x lt = omega arith

-- However many threads share the work, each page of 4096 bytes of a memory that begins at a page and
-- has a whole number of pages is written to by one of them.
pub first_touch_lem :
    (size n p : ℕ)
    → 1 ≤ n
    → size % 4096 ≡ 0
    → p * 4096 < size
    → (t : ℕ) × (t < n) × TouchesPage size n t (p * 4096)
unfolding touch_base
first_touch_lem size n p some pages inside =
    let per = size / n in
    elim (dec_le ((n - 1) * per) (p * 4096)) [
      | yes last ↦ (n - 1, omega arith, touch-last size n p some pages inside last)
      | no earlier ↦
          let positive : 0 < per = positive_factor (n - 1) per (p * 4096) (omega arith) in
          let t = p * 4096 / per in
          touch-inner size n t p
            ((div-lt_iff_lt-mul {x = p * 4096} {y = n - 1} positive).1 (omega arith))
            (div-mul-le_self (p * 4096) per)
            (omega (arith, next_base t per, lt-div-mul-add {a = p * 4096} positive))
    ]
