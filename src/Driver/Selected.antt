-- ===== src/Driver/Selected.antt =====
-- Which tests the mode string selects (src/main.cpp, `main`).
use Prim.Native.String.{String}
use mathlib.Core.Path.{ap₂}
use mio_xcena.Base.{
  ℕ, ◌≡◌, refl, Bool, true, false, ◌||◌, ◌==◌, Option, none, some, List, [], ◌∷◌, ◌++◌, arith,
  is_text, ◌∙◌, ap, sym, bytes_of, ◌>>=◌,
}
use mio_xcena.Driver.Modes.{
  Test, Token, seq_read, seq_write, random_read, random_write, stride_read, stride_write,
  zipfian_read, pointer_chase, seq, random, stride, zipfian, detailed, nonempty, parse_tokens,
  getlines, parse_modes, expand_mode, expand_modes, Runs, no_runs, set_run, select_runs, on_runs,
  token_of,
}

abbrev number : Test → ℕ
number seq_read = 0
number seq_write = 1
number random_read = 2
number random_write = 3
number stride_read = 4
number stride_write = 5
number zipfian_read = 6
number pointer_chase = 7

-- The test is the given one.
abbrev pub is_test : Test → Test → Bool
is_test t x = number t == number x

-- The documented meaning of each name: the tests it stands for.
abbrev pub covers : Token → Test → Bool
covers seq x = is_test seq_read x || is_test seq_write x
covers random x = is_test random_read x || is_test random_write x
covers stride x = is_test stride_read x || is_test stride_write x
covers zipfian x = is_test zipfian_read x
covers (detailed t) x = is_test t x

abbrev pub any_covers : List Token → Test → Bool
any_covers [] x = false
any_covers (m ∷ ms) x = covers m x || any_covers ms x

abbrev any_test : List Test → Test → Bool
any_test [] x = false
any_test (t ∷ ts) x = is_test t x || any_test ts x

on_runs-set_run : (t x : Test) (r : Runs) → on_runs x (set_run t r) ≡ is_test t x || on_runs x r
unfolding set_run
on_runs-set_run t x r = ground arith

on_runs-none : (x : Test) → on_runs x no_runs ≡ false
on_runs-none x = ground arith

or_assoc : (a b c : Bool) → a || (b || c) ≡ b || (a || c)
or_assoc a b c = ground arith

or_append : (a b c : Bool) → (a || b) || c ≡ a || (b || c)
or_append a b c = ground arith

or_false : (a : Bool) → a || false ≡ a
or_false a = ground arith

on_runs-select_runs :
    (ts : List Test) (r : Runs) (x : Test)
    → on_runs x (select_runs ts r) ≡ any_test ts x || on_runs x r
unfolding select_runs
on_runs-select_runs [] r x = refl
on_runs-select_runs (t ∷ ts) r x =
    on_runs-select_runs ts (set_run t r) x
    ∙ ap (λ b. any_test ts x || b) (on_runs-set_run t x r)
    ∙ or_assoc (any_test ts x) (is_test t x) (on_runs x r)
    ∙ sym (or_append (is_test t x) (any_test ts x) (on_runs x r))

any_test-append :
    (ts us : List Test) (x : Test) → any_test (ts ++ us) x ≡ any_test ts x || any_test us x
any_test-append [] us x = refl
any_test-append (t ∷ ts) us x =
    ap (λ b. is_test t x || b) (any_test-append ts us x)
    ∙ sym (or_append (is_test t x) (any_test ts x) (any_test us x))

any_test-expand_mode : (m : Token) (x : Test) → any_test (expand_mode m) x ≡ covers m x
unfolding expand_mode
any_test-expand_mode seq x = ap (λ b. is_test seq_read x || b) (or_false (is_test seq_write x))
any_test-expand_mode random x =
    ap (λ b. is_test random_read x || b) (or_false (is_test random_write x))
any_test-expand_mode stride x =
    ap (λ b. is_test stride_read x || b) (or_false (is_test stride_write x))
any_test-expand_mode zipfian x = or_false (is_test zipfian_read x)
any_test-expand_mode (detailed t) x = or_false (is_test t x)

any_test-expand_modes :
    (ms : List Token) (x : Test) → any_test (expand_modes ms) x ≡ any_covers ms x
unfolding expand_modes
any_test-expand_modes [] x = refl
any_test-expand_modes (m ∷ ms) x =
    any_test-append (expand_mode m) (expand_modes ms) x
    ∙ ap₂ ◌||◌ (any_test-expand_mode m x) (any_test-expand_modes ms x)

on_runs-expand_modes :
    (ms : List Token) (x : Test)
    → on_runs x (select_runs (expand_modes ms) no_runs) ≡ any_covers ms x
on_runs-expand_modes ms x =
    on_runs-select_runs (expand_modes ms) no_runs x
    ∙ ap₂ ◌||◌ (any_test-expand_modes ms x) (on_runs-none x)
    ∙ or_false (any_covers ms x)

-- The name of a mode, as the usage text gives it.
abbrev pub name_of : Token → String
name_of seq = "seq"
name_of random = "random"
name_of stride = "stride"
name_of zipfian = "zipfian"
name_of (detailed seq_read) = "seq_read"
name_of (detailed seq_write) = "seq_write"
name_of (detailed random_read) = "random_read"
name_of (detailed random_write) = "random_write"
name_of (detailed stride_read) = "stride_read"
name_of (detailed stride_write) = "stride_write"
name_of (detailed zipfian_read) = "zipfian_read"
name_of (detailed pointer_chase) = "pointer_chase"

-- The names with commas between them.
abbrev pub join : Token → List Token → List ℕ
join m [] = bytes_of (name_of m)
join m (n ∷ ms) = bytes_of (name_of m) ++ (b',' ∷ join n ms)

token_of-name_of : (m : Token) → token_of (bytes_of (name_of m)) ≡ some m
unfolding token_of is_text
token_of-name_of seq = refl
token_of-name_of random = refl
token_of-name_of stride = refl
token_of-name_of zipfian = refl
token_of-name_of (detailed seq_read) = refl
token_of-name_of (detailed seq_write) = refl
token_of-name_of (detailed random_read) = refl
token_of-name_of (detailed random_write) = refl
token_of-name_of (detailed stride_read) = refl
token_of-name_of (detailed stride_write) = refl
token_of-name_of (detailed zipfian_read) = refl
token_of-name_of (detailed pointer_chase) = refl

-- A name is a first token whatever follows its comma, and a last one.
getlines-name :
    (m : Token) (rest : List ℕ)
    → (getlines none (bytes_of (name_of m)) ≡ bytes_of (name_of m) ∷ [])
      × (getlines none (bytes_of (name_of m) ++ (b',' ∷ rest))
          ≡ bytes_of (name_of m) ∷ getlines none rest)
unfolding getlines
getlines-name seq rest = (refl, refl)
getlines-name random rest = (refl, refl)
getlines-name stride rest = (refl, refl)
getlines-name zipfian rest = (refl, refl)
getlines-name (detailed seq_read) rest = (refl, refl)
getlines-name (detailed seq_write) rest = (refl, refl)
getlines-name (detailed random_read) rest = (refl, refl)
getlines-name (detailed random_write) rest = (refl, refl)
getlines-name (detailed stride_read) rest = (refl, refl)
getlines-name (detailed stride_write) rest = (refl, refl)
getlines-name (detailed zipfian_read) rest = (refl, refl)
getlines-name (detailed pointer_chase) rest = (refl, refl)

-- No text that begins with a name is "all".
name-not_all :
    (m : Token) (rest : List ℕ)
    → (is_text (bytes_of (name_of m)) "all" ≡ false)
      × (is_text (bytes_of (name_of m) ++ rest) "all" ≡ false)
unfolding is_text
name-not_all seq rest = (refl, refl)
name-not_all random rest = (refl, refl)
name-not_all stride rest = (refl, refl)
name-not_all zipfian rest = (refl, refl)
name-not_all (detailed seq_read) rest = (refl, refl)
name-not_all (detailed seq_write) rest = (refl, refl)
name-not_all (detailed random_read) rest = (refl, refl)
name-not_all (detailed random_write) rest = (refl, refl)
name-not_all (detailed stride_read) rest = (refl, refl)
name-not_all (detailed stride_write) rest = (refl, refl)
name-not_all (detailed zipfian_read) rest = (refl, refl)
name-not_all (detailed pointer_chase) rest = (refl, refl)

join-not_all : (m : Token) (ms : List Token) → is_text (join m ms) "all" ≡ false
join-not_all m [] = (name-not_all m []).0
join-not_all m (n ∷ ms) = (name-not_all m (b',' ∷ join n ms)).1

parse_tokens-join :
    (m : Token) (ms : List Token) → parse_tokens (getlines none (join m ms)) ≡ some (m ∷ ms)
unfolding parse_tokens
parse_tokens-join m [] = rw ((getlines-name m []).0) (rw (token_of-name_of m) refl)
parse_tokens-join m (n ∷ ms) =
    rw ((getlines-name m (join n ms)).1)
      (rw (token_of-name_of m) (rw (parse_tokens-join n ms) refl))

-- A list of names separated by commas is accepted and read as those modes, and a test then runs just
-- if one of the names stands for it.
pub parse_modes-join :
    (m : Token) (ms : List Token)
    → (parse_modes (join m ms) ≡ some (m ∷ ms))
      × ((x : Test)
          → on_runs x (select_runs (expand_modes (m ∷ ms)) no_runs) ≡ any_covers (m ∷ ms) x)
unfolding parse_modes
parse_modes-join m ms =
    (rw (join-not_all m ms) (rw (parse_tokens-join m ms) refl), on_runs-expand_modes (m ∷ ms))

covers-some : (m : Token) → (x : Test) × (covers m x ≡ true)
covers-some seq = (seq_read, refl)
covers-some random = (random_read, refl)
covers-some stride = (stride_read, refl)
covers-some zipfian = (zipfian_read, refl)
covers-some (detailed t) = (t, ground arith)

nonempty-some :
    (o : Option (List Token)) (ms : List Token)
    → (o >>= nonempty) ≡ some ms
    → (x : Test) × (any_covers ms x ≡ true)
nonempty-some none ms e = cc
nonempty-some (some []) ms e = cc
nonempty-some (some (n ∷ ns)) [] e = cc
nonempty-some (some (n ∷ ns)) (m ∷ ms) e = let found = covers-some m in (found.0, rw (found.1) refl)

-- Whatever the mode string, when it is accepted at least one test runs.
pub parse_modes-runs :
    (mode : List ℕ) (ms : List Token)
    → parse_modes mode ≡ some ms
    → (x : Test) × (on_runs x (select_runs (expand_modes ms) no_runs) ≡ true)
unfolding parse_modes
parse_modes-runs mode ms e =
    let found = nonempty-some _ ms e in (found.0, on_runs-expand_modes ms (found.0) ∙ found.1)
