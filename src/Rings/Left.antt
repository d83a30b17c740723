-- ===== src/Rings/Left.antt =====
-- What `main` of custom-test/test4-nowait.c has not given back when it returns.
use mio_xcena.Base.{
  ℕ, zero, suc, ◌+◌, ◌*◌, ◌<◌, ◌^◌, ◌≡◌, refl, Bool, true, false, ◌&&◌, ◌==◌, not, leb, ltb,
  if◌then◌else◌, Bool-cases, inl, inr, Option, none, some, ◌>>=◌, List, [], ◌∷◌, ◌++◌, u32, arith,
  Option-cases,
}
use mio_xcena.Rings.Main.{
  Resource, eal, store, csv, rings, ring, Event, gain, drop, Calls, Outcome, close_csv, free_rings,
  run_turns, create_rings, with_rings, with_store, main,
}

abbrev code : Resource → ℕ × ℕ
code eal = (0, 0)
code store = (1, 0)
code csv = (2, 0)
code rings = (3, 0)
code (ring i) = (4, i)

abbrev is_resource : Resource → Resource → Bool
is_resource r s = (code r).0 == (code s).0 && (code r).1 == (code s).1

-- Whether a resource is held after an event; `none` if it is gained twice, or given back when it is
-- not held.
abbrev pub track : Resource → Bool → Event → Option Bool
track r held (gain s) = if is_resource r s then (if held then none else some true) else some held
track r held (drop s) = if is_resource r s then (if held then some false else none) else some held

pub held_after : Resource → List Event → Bool → Option Bool
held_after r [] held = some held
held_after r (e ∷ es) held = track r held e >>= held_after r es

held_after-append :
    (r : Resource) (xs ys : List Event) (held : Bool)
    → held_after r (xs ++ ys) held ≡ (held_after r xs held >>= held_after r ys)
unfolding held_after
held_after-append r [] ys held = refl
held_after-append r (x ∷ xs) ys held = elim (Option-cases (track r held x)) [
  | inl e ↦ rw e refl
  | inr (v, e) ↦ rw e (held_after-append r xs ys v)
]

-- What is held while `n` rings exist.
abbrev holding : (csv_open : Bool) → (n : ℕ) → Resource → Bool
holding csv_open n eal = true
holding csv_open n store = true
holding csv_open n csv = csv_open
holding csv_open n rings = true
holding csv_open n (ring i) = ltb i n

-- What is left at the end of a run whose rings were all created.
abbrev pub leaked : (n : ℕ) → Resource → Bool
leaked n eal = true
leaked n store = false
leaked n csv = false
leaked n rings = true
leaked n (ring i) = ltb i n

-- The rings `k, ..., i - 1` are freed.
abbrev holding_from : (csv_open : Bool) → (k i : ℕ) → Resource → Bool
holding_from csv_open k i eal = true
holding_from csv_open k i store = true
holding_from csv_open k i csv = csv_open
holding_from csv_open k i rings = true
holding_from csv_open k i (ring j) = leb k j && ltb j i

free_rings-held :
    (r : Resource) (b : Bool) (left k i : ℕ)
    → k + left ≡ i
    → held_after r (free_rings left k) (holding_from b k i r) ≡ some (holding_from b i i r)
unfolding held_after free_rings
free_rings-held r b zero k i e = let there : k ≡ i = omega arith in rw there refl
free_rings-held r b (suc left) k i e =
    let step : track r (holding_from b k i r) (drop (ring k)) ≡ some (holding_from b (k + 1) i r) =
      ground arith in
    rw step (free_rings-held r b left (k + 1) i (omega arith))

-- The end of a run in which ring `i` could not be created.
gives_back :
    (r : Resource) (c : Calls) (i : ℕ)
    → held_after r
        (free_rings i 0 ++ (drop rings ∷ drop store ∷ (close_csv c.wants_csv ++ (drop eal ∷ []))))
        (holding c.wants_csv i r)
      ≡ some false
unfolding held_after
gives_back r c i =
    let start : holding c.wants_csv i r ≡ holding_from c.wants_csv 0 i r = ground arith in
    rw
      (
        start,
        held_after-append r (free_rings i 0)
            (drop rings ∷ drop store ∷ (close_csv c.wants_csv ++ (drop eal ∷ [])))
            (holding_from c.wants_csv 0 i r),
        free_rings-held r c.wants_csv i 0 i (omega arith),
      )
      (ground arith)

run_turns-held :
    (r : Resource) (c : Calls) (left turn n : ℕ)
    → held_after r (run_turns c left turn).events (holding c.wants_csv n r) ≡ some (leaked n r)
unfolding held_after run_turns
run_turns-held r c zero turn n = ground arith
run_turns-held r c (suc left) turn n = elim (Bool-cases (c.read_rdma turn)) [
  | inl e ↦ rw e (run_turns-held r c left (turn + 1) n)
  | inr e ↦ rw e (ground arith)
]

-- Whether the rings from `i` on can all be created.
pub all_rings : Calls → (left i : ℕ) → Bool
all_rings c zero i = true
all_rings c (suc left) i = c.ring i && all_rings c left (i + 1)

create_rings-held :
    (r : Resource) (c : Calls) (rounds left i n : ℕ)
    → i + left ≡ n
    → held_after r (create_rings c rounds left i).events (holding c.wants_csv i r)
      ≡ some (if all_rings c left i then leaked n r else false)
unfolding held_after create_rings all_rings
create_rings-held r c rounds zero i n e =
    let there : i ≡ n = omega arith in rw (← there) (run_turns-held r c rounds 1 i)
create_rings-held r c rounds (suc left) i n e = elim (Bool-cases (c.ring i)) [
  | inl there ↦
      let step : track r (holding c.wants_csv i r) (gain (ring i))
          ≡ some (holding c.wants_csv (i + 1) r) =
        ground arith in
      rw (there, step) (create_rings-held r c rounds left (i + 1) n (omega arith))
  | inr none_there ↦ rw none_there (gives_back r c i)
]

-- What is held before the array of rings is allocated.
abbrev store_only : (csv_open : Bool) → Resource → Bool
store_only csv_open eal = true
store_only csv_open store = true
store_only csv_open csv = csv_open
store_only csv_open rings = false
store_only csv_open (ring i) = false

-- A call that fails, or goes on.
either-held :
    (r : Resource) (b : Bool) (failed later : Outcome) (held v w : Bool)
    → held_after r later.events held ≡ some v
    → held_after r failed.events held ≡ some w
    → held_after r (if not b then failed else later).events held ≡ some (if b then v else w)
either-held r true failed later held v w e f = e
either-held r false failed later held v w e f = f

unless-held :
    (r : Resource) (b : Bool) (failed later : Outcome) (held v w : Bool)
    → held_after r failed.events held ≡ some v
    → held_after r later.events held ≡ some w
    → held_after r (if b then failed else later).events held ≡ some (if b then v else w)
unless-held r true failed later held v w e f = e
unless-held r false failed later held v w e f = f

next-held :
    (r : Resource) (x : Event) (es : List Event) (held mid v : Bool)
    → track r held x ≡ some mid
    → held_after r es mid ≡ some v
    → held_after r (x ∷ es) held ≡ some v
unfolding held_after
next-held r x es held mid v e f = rw e f

-- What is left of a resource when `main` has come to the array of rings.
abbrev pub left_by_rings : Calls → (n : ℕ) → Resource → Bool
left_by_rings c n r = if c.rings then (if all_rings c n 0 then leaked n r else false) else false

with_rings-held :
    (r : Resource) (c : Calls) (requests rounds n : ℕ)
    → u32 (requests * 2) ≡ n
    → held_after r (with_rings c requests rounds).events (store_only c.wants_csv r)
      ≡ some (left_by_rings c n r)
unfolding held_after with_rings
with_rings-held r c requests rounds n e =
    either-held r c.rings _ _ _ _ _
      (next-held r (gain rings) _ _ (holding c.wants_csv 0 r) _ (ground arith)
        (rw e (create_rings-held r c rounds n 0 n (omega arith))))
      (ground arith)

abbrev is_eal : Resource → Bool
is_eal r = is_resource r eal

store_csv-held :
    (r : Resource) (b : Bool) (es : List Event) (v : Bool)
    → held_after r es (store_only b r) ≡ some v
    → held_after r (gain store ∷ ((if b then gain csv ∷ [] else []) ++ es)) (is_eal r) ≡ some v
store_csv-held r true es v e =
    next-held r (gain store) _ _ (store_only false r) _ (ground arith)
      (next-held r (gain csv) _ _ (store_only true r) _ (ground arith) e)
store_csv-held r false es v e = next-held r (gain store) _ _ (store_only false r) _ (ground arith) e

-- And when it has come to the allocation of the store.
abbrev pub left_by_store : Calls → (n : ℕ) → Resource → Bool
left_by_store c n r =
    if c.store
    then (if c.wants_csv && not c.csv then is_eal r else left_by_rings c n r)
    else is_eal r

with_store-held :
    (r : Resource) (c : Calls) (requests rounds n : ℕ)
    → u32 (requests * 2) ≡ n
    → held_after r (with_store c requests rounds).events (is_eal r) ≡ some (left_by_store c n r)
unfolding held_after with_store
with_store-held r c requests rounds n e =
    either-held r c.store _ _ _ _ _
      (unless-held r (c.wants_csv && not c.csv) _ _ _ _ _ (ground arith)
        (store_csv-held r c.wants_csv _ _ (with_rings-held r c requests rounds n e)))
      refl

-- What `main` has not given back at its end, by what fails: nothing if there is no environment layer;
-- that layer if the sizes overflow, or the store or the result file cannot be had; nothing if a ring
-- or their array cannot be had; else the layer, the array and the rings.
abbrev pub left_at_exit : Calls → (n : ℕ) → Resource → Bool
left_at_exit c n r =
    if c.parse_args
    then (if c.eal_init then (if c.sizes then left_by_store c n r else is_eal r) else false)
    else false

-- For fewer than 2^31 requests, and whichever of its calls fail, `main` of test4-nowait.c gains no
-- resource twice and gives none back that it does not hold, and what it holds when it returns is:
-- nothing if the arguments or `rte_eal_init` fail, or if a ring or the array of rings cannot be
-- created; only the environment layer if the sizes overflow, or the store or the result file cannot be
-- had; else the environment layer, the array of rings and every ring, whether `read_rdma` fails or not.
pub main-left :
    (c : Calls) (requests rounds : ℕ) (r : Resource)
    → requests < 2 ^ 31
    → held_after r (main c requests rounds).events false ≡ some (left_at_exit c (requests * 2) r)
unfolding held_after main
main-left c requests rounds r small =
    either-held r c.parse_args _ _ _ _ _
      (either-held r c.eal_init _ _ _ _ _
        (either-held r c.sizes _ _ _ _ _
          (next-held r (gain eal) _ false (is_eal r) _ (ground arith)
            (with_store-held r c requests rounds (requests * 2) (omega arith)))
          (ground arith))
        refl)
      refl
