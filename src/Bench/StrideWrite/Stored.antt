-- ===== src/Bench/StrideWrite/Stored.antt =====
-- One store of a thread of `measureStrideWrite` (src/benchmark.cpp): what it changes, and what the stores
-- made so far have left in the memory.
use mio_xcena.Base.{
  set_at, each, ℕ, ◌+◌, ◌-◌, ◌*◌, ◌/◌, ◌%◌, ◌<◌, ◌≤◌, ◌≡◌, ◌≢◌, ◌⊎◌, inl, inr, refl, ap, ◌∙◌, List,
  [], ◌∷◌, Memory, byte_at, arith, eq_or_ne, ==_refl, ==_ne, sym, le→leb, lt→ltb,
}
use mathlib.Core.Path.{subst}
use native.Mathlib.Decide.{dec_lt}
use mio_xcena.Grid.{before}
use mio_xcena.Bench.Counters.{occurrences}
use mio_xcena.Bench.StrideWrite.{Worker, setting_up, spinning, writing, finished, store_value}
use mio_xcena.Bench.StrideWrite.Aligned.{AllFit}

-- Byte `x` of share `t`, when 32 bytes are stored at an offset `o` of the share `i`.
module _ (per n : ℕ) (m : Memory) (i o : ℕ) (even : o % 32 ≡ 0) (fits : o + 32 ≤ per) where
  store-same :
      (x : ℕ) → x / 32 * 32 ≡ o → store_value (i * per + o) i m (i * per + x) ≡ byte_at (x % 4) i
  unfolding store_value
  store-same x e =
      let place : (i * per + x - (i * per + o)) % 4 ≡ x % 4 = omega arith in
      rw
        (
          le→leb (i * per + o) (i * per + x) (omega arith),
          lt→ltb (i * per + x) (i * per + o + 32) (omega arith),
          place,
        )
        refl

  -- An address that is not among the 32.
  store-outside :
      (a : ℕ) → (a < i * per + o) ⊎ (i * per + o + 32 ≤ a) → store_value (i * per + o) i m a ≡ m a
  unfolding store_value
  store-outside a away = ground arith

  store-other :
      (t x : ℕ)
      → x < per
      → (i ≢ t) ⊎ (x / 32 * 32 ≢ o)
      → store_value (i * per + o) i m (t * per + x) ≡ m (t * per + x)
  store-other t x lt differ = store-outside (t * per + x) (elim (dec_lt t i) [
    | yes below ↦ inl (omega (arith, before t i per below))
    | no not_below ↦ elim (dec_lt i t) [
      | yes above ↦ inr (omega (arith, before i t per above))
      | no not_above ↦
          let same : t * per ≡ i * per = ap (λ (k : ℕ). k * per) (omega arith) in
          elim differ [
            | inl ne ↦ absurd (ne (omega arith))
            | inr ne ↦ elim (dec_lt (x / 32 * 32) o) [
              | yes low ↦ inl (omega arith)
              | no high ↦ inr (omega (arith, ne))
            ]
          ]
    ]
  ])

  store-beyond : (a : ℕ) → i < n → n * per ≤ a → store_value (i * per + o) i m a ≡ m a
  store-beyond a lt le = store-outside a (inr (omega (arith, before i n per lt)))

-- The stores that a thread has still to make.
abbrev pub rest : List ℕ → Worker → List ℕ
rest all setting_up = all
rest all spinning = all
rest all (writing todo _ _) = todo
rest all finished = []

module _ (num_threads per : ℕ) (all : List ℕ) (m₀ : Memory) where
  -- The 32 bytes of share `t` that are stored to and whose store is not to come hold the thread's value.
  abbrev pub Done : Memory → ℕ → Worker → Type 0
  Done m t w =
      (x : ℕ)
      → x < per
      → 1 ≤ occurrences (x / 32 * 32) all
      → occurrences (x / 32 * 32) (rest all w) ≡ 0
      → m (t * per + x) ≡ byte_at (x % 4) t

  pub record Content (worker : ℕ → Worker) (m : Memory) : Type 0 where
    pub fit : (t : ℕ) → AllFit per (rest all (worker t))
    pub among : (t u : ℕ) → 1 ≤ occurrences u (rest all (worker t)) → 1 ≤ occurrences u all
    pub done : (t : ℕ) → t < num_threads → Done m t (worker t)
    pub kept :
        (t x : ℕ)
        → t < num_threads
        → x < per
        → occurrences (x / 32 * 32) all ≡ 0
        → m (t * per + x) ≡ m₀ (t * per + x)
    pub beyond : (a : ℕ) → num_threads * per ≤ a → m a ≡ m₀ a

  -- Thread `t` goes on without a store.
  pub moved-Content :
      (worker : ℕ → Worker) (m : Memory) (t : ℕ) (v : Worker)
      → rest all v ≡ rest all (worker t)
      → Content worker m
      → Content (set_at worker t v) m
  moved-Content worker m t v same c = record {
    fit = each (λ j w. AllFit per (rest all w)) worker t v (rw same (c.fit t)) c.fit;
    among =
        each (λ j w. (u : ℕ) → 1 ≤ occurrences u (rest all w) → 1 ≤ occurrences u all) worker t v
          (rw same (c.among t)) c.among;
    done =
        each (λ j w. j < num_threads → Done m j w) worker t v
          (λ lt x x_lt in_all none_left. c.done t lt x x_lt in_all (rw (← same) none_left)) c.done;
    kept = c.kept;
    beyond = c.beyond;
  }

  behind-Done :
      (m : Memory) (t o : ℕ) (todo : List ℕ)
      → o % 32 ≡ 0
      → o + 32 ≤ per
      → ((x : ℕ)
          → x < per
          → 1 ≤ occurrences (x / 32 * 32) all
          → occurrences (x / 32 * 32) (o ∷ todo) ≡ 0
          → m (t * per + x) ≡ byte_at (x % 4) t)
      → (x : ℕ) → x < per
      → 1 ≤ occurrences (x / 32 * 32) all
      → occurrences (x / 32 * 32) todo ≡ 0
      → store_value (t * per + o) t m (t * per + x) ≡ byte_at (x % 4) t
  behind-Done m t o todo even fits before_store x x_lt in_all none_left =
      elim (eq_or_ne (x / 32 * 32) o) [
        | inl e ↦ store-same per num_threads m t o even fits x e
        | inr ne ↦
            store-other per num_threads m t o even fits t x x_lt (inr ne)
            ∙ before_store x x_lt in_all
                (rw (==_ne o (x / 32 * 32) (λ e. ne (sym e))) (omega (arith, none_left)))
      ]

  -- Thread `t` stores at `o`.
  pub stored-Content :
      (worker : ℕ → Worker) (m : Memory) (t o : ℕ) (todo : List ℕ) (b a b' a' : ℕ)
      → t < num_threads
      → worker t ≡ writing (o ∷ todo) b a
      → Content worker m
      → Content (set_at worker t (writing todo b' a')) (store_value (t * per + o) t m)
  stored-Content worker m t o todo b a b' a' lt e c =
      let fit_t : AllFit per (o ∷ todo) = subst (λ w. AllFit per (rest all w)) e (c.fit t) in
      let among_t : (u : ℕ) → 1 ≤ occurrences u (o ∷ todo) → 1 ≤ occurrences u all =
        subst (λ w. (u : ℕ) → 1 ≤ occurrences u (rest all w) → 1 ≤ occurrences u all) e
          (c.among t) in
      let done_t = subst (Done m t) e (c.done t lt) in
      let even = fit_t.0.0 in
      let fits = fit_t.0.1 in
      record {
        fit = each (λ j w. AllFit per (rest all w)) worker t (writing todo b' a') (fit_t.1) c.fit;
        among =
            each (λ j w. (u : ℕ) → 1 ≤ occurrences u (rest all w) → 1 ≤ occurrences u all) worker t
              (writing todo b' a') (λ u some. among_t u (omega (arith, some))) c.among;
        done = λ j j_lt. elim (eq_or_ne t j) [
          | inl same ↦ rw (← same) (rw (==_refl t) (behind-Done m t o todo even fits done_t))
          | inr ne ↦ rw (==_ne t j ne) (λ x x_lt in_all none_left.
              store-other per num_threads m t o even fits j x x_lt (inl ne)
              ∙ c.done j j_lt x x_lt in_all none_left)
        ];
        kept = λ j x j_lt x_lt none_in.
            store-other per num_threads m t o even fits j x x_lt (
              inr (λ same.
                absurd
                  (omega (arith, among_t o (rw (==_refl o) (omega arith)), rw same at none_in))))
            ∙ c.kept j x j_lt x_lt none_in;
        beyond = λ a' le. store-beyond per num_threads m t o even fits a' lt le ∙ c.beyond a' le;
      }
