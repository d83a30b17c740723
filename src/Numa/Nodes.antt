-- ===== src/Numa/Nodes.antt =====
-- What `parseNumaNodes` (src/numa_affinity.cpp) makes of the tokens.
use mio_xcena.Base.{
  ℕ, ℤ, pos, negsuc, lt_int, ◌>>=◌, inl, inr, ◌∙◌, ap, ◌≡◌, refl, ◌==◌, Bool, true, false, ◌&&◌,
  ◌||◌, Option, none, some, List, [], ◌∷◌, arith, Bool-cases,
}
use mio_xcena.Numa.{Strtol, insert, parse_node, node_or_stop, parse_loop, parse_numa_nodes, strtok}

-- Strictly ascending, so without duplicates.
abbrev pub is_ascending : List ℤ → Bool
is_ascending [] = true
is_ascending (n ∷ []) = true
is_ascending (n ∷ (m ∷ ms)) = lt_int n m && is_ascending (m ∷ ms)

abbrev pub is_int : ℤ → ℤ → Bool
is_int (pos m) (pos n) = m == n
is_int (pos m) (negsuc k) = false
is_int (negsuc j) (pos n) = false
is_int (negsuc j) (negsuc k) = j == k

abbrev pub is_member : ℤ → List ℤ → Bool
is_member n [] = false
is_member n (m ∷ ms) = is_int n m || is_member n ms

lt_int_total :
    (m n : ℤ) → lt_int m n ≡ false → lt_int n m ≡ false → (x : ℤ) → is_int x m ≡ is_int x n
lt_int_total m n a b x = ground arith

or_swap : (a b c : Bool) → a || (b || c) ≡ b || (a || c)
or_swap a b c = ground arith

or_again : (a c : Bool) → a || c ≡ a || (a || c)
or_again a c = ground arith

is_member-insert :
    (x n : ℤ) (ms : List ℤ) → is_member x (insert n ms) ≡ is_int x n || is_member x ms
unfolding insert
is_member-insert x n [] = refl
is_member-insert x n (m ∷ ms) =
    let rest = is_member-insert x n ms in
    let equal = λ (a : lt_int n m ≡ false) (b : lt_int m n ≡ false). lt_int_total n m a b x in
    elim (Bool-cases (lt_int n m)) [
      | inl less ↦ rw less refl
      | inr not_less ↦ elim (Bool-cases (lt_int m n)) [
        | inl more ↦ rw (not_less, more, rest) (or_swap (is_int x m) (is_int x n) (is_member x ms))
        | inr not_more ↦
            rw (not_less, not_more, equal not_less not_more)
              (or_again (is_int x m) (is_member x ms))
      ]
    ]

and_split : (a b : Bool) → a && b ≡ true → (a ≡ true) × (b ≡ true)
and_split a b e = ground arith

-- With a bound below that stays in front.
is_ascending-insert_above :
    (lo n : ℤ) (ms : List ℤ)
    → is_ascending (lo ∷ ms) ≡ true
    → lt_int lo n ≡ true
    → is_ascending (lo ∷ insert n ms) ≡ true
unfolding insert
is_ascending-insert_above lo n [] up less = rw less refl
is_ascending-insert_above lo n (m ∷ ms) up less =
    let parts = and_split (lt_int lo m) (is_ascending (m ∷ ms)) up in
    elim (Bool-cases (lt_int n m)) [
      | inl nm ↦ rw (nm, less, nm) (parts.1)
      | inr not_nm ↦ elim (Bool-cases (lt_int m n)) [
        | inl mn ↦ rw (not_nm, mn, parts.0) (is_ascending-insert_above m n ms (parts.1) mn)
        | inr not_mn ↦ rw (not_nm, not_mn) up
      ]
    ]

is_ascending-insert :
    (n : ℤ) (ms : List ℤ) → is_ascending ms ≡ true → is_ascending (insert n ms) ≡ true
unfolding insert
is_ascending-insert n [] up = refl
is_ascending-insert n (m ∷ ms) up = elim (Bool-cases (lt_int n m)) [
  | inl nm ↦ rw (nm, nm) up
  | inr not_nm ↦ elim (Bool-cases (lt_int m n)) [
    | inl mn ↦ rw (not_nm, mn) (is_ascending-insert_above m n ms up mn)
    | inr not_mn ↦ rw (not_nm, not_mn) up
  ]
]

-- What is promised of a result: nothing after an error, else an ascending list of the values and of the
-- nodes that were there.
abbrev Inserted : List ℤ → Option (List ℤ) → List ℤ → Type 0
Inserted acc none l = l ≡ []
Inserted acc (some vs) l =
    (is_ascending l ≡ true) × ((x : ℤ) → is_member x l ≡ is_member x vs || is_member x acc)

or_third : (a b c : Bool) → a || (b || c) ≡ (b || a) || c
or_third a b c = ground arith

or_false : (a : Bool) → a || false ≡ a
or_false a = ground arith

Inserted-cons :
    (n : ℤ) (acc : List ℤ) (o : Option (List ℤ)) (l : List ℤ)
    → Inserted (insert n acc) o l
    → Inserted acc (o >>= (λ vs. some (n ∷ vs))) l
Inserted-cons n acc none l h = h
Inserted-cons n acc (some vs) l h = (
  h.0,
  λ x.
      h.1 x
      ∙ ap (λ b. is_member x vs || b) (is_member-insert x n acc)
      ∙ or_third (is_member x vs) (is_int x n) (is_member x acc),
)

node_or_stop-Inserted :
    (acc : List ℤ) (node : Option ℤ) (o : Option (List ℤ)) (next : ℤ → List ℤ)
    → ((n : ℤ) → Inserted (insert n acc) o (next n))
    → Inserted acc (node >>= (λ n. o >>= (λ vs. some (n ∷ vs)))) (node_or_stop node next)
node_or_stop-Inserted acc none o next h = refl
node_or_stop-Inserted acc (some n) o next h = Inserted-cons n acc o (next n) (h n)

-- The ascending list of the values without duplicates, and nothing after an error.
abbrev pub IsNodeSet : Option (List ℤ) → List ℤ → Type 0
IsNodeSet none l = l ≡ []
IsNodeSet (some vs) l = (is_ascending l ≡ true) × ((x : ℤ) → is_member x l ≡ is_member x vs)

Inserted-IsNodeSet : (o : Option (List ℤ)) (l : List ℤ) → Inserted [] o l → IsNodeSet o l
Inserted-IsNodeSet none l h = h
Inserted-IsNodeSet (some vs) l h = (h.0, λ x. h.1 x ∙ or_false (is_member x vs))

module _ (strtol : Strtol) where
  -- The values of the tokens, if every one of them is a node.
  abbrev pub read_all : List (List ℕ) → Option (List ℤ)
  read_all [] = some []
  read_all (t ∷ ts) = parse_node strtol t >>= (λ n. read_all ts >>= (λ ns. some (n ∷ ns)))

  parse_loop-Inserted :
      (ts : List (List ℕ)) (acc : List ℤ)
      → is_ascending acc ≡ true
      → Inserted acc (read_all ts) (parse_loop strtol ts acc)
  unfolding parse_loop
  parse_loop-Inserted [] acc up = (up, λ x. refl)
  parse_loop-Inserted (t ∷ ts) acc up =
      node_or_stop-Inserted acc (parse_node strtol t) (read_all ts)
        (λ n. parse_loop strtol ts (insert n acc))
        (λ n. parse_loop-Inserted ts (insert n acc) (is_ascending-insert n acc up))

  -- If each token between the commas is a node number, the result holds just the numbers given, each
  -- once and in ascending order; if one is not, the result is empty.
  pub parse_numa_nodes_lem :
      (s : List ℕ) → IsNodeSet (read_all (strtok [] s)) (parse_numa_nodes strtol (some s))
  unfolding parse_numa_nodes
  parse_numa_nodes_lem s =
      Inserted-IsNodeSet (read_all (strtok [] s)) (parse_loop strtol (strtok [] s) [])
        (parse_loop-Inserted (strtok [] s) [] refl)
