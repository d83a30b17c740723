-- ===== src/Driver/Modes.antt =====
-- src/main.cpp, `main`: the mode string, its expansion, the tests that it selects, and the two lines of
-- the result file.
use mio_xcena.Base.{
  ℕ, Bool, true, false, ◌==◌, if◌then◌else◌, Option, none, some, ◌>>=◌, List, [], ◌∷◌, ◌++◌,
  is_text, bytes_of,
}

pub data Test : Type 0 where
  seq_read seq_write random_read random_write stride_read stride_write : Test
  zipfian_read pointer_chase : Test

-- The names that the parser accepts.
pub data Token : Type 0 where
  seq random stride zipfian : Token
  detailed : Test → Token

abbrev or_empty : Option (List ℕ) → List ℕ
or_empty none = []
or_empty (some t) = t

-- `getline(ss, token, ',')` until it fails: `none` when nothing of a token has been read.
unfoldable pub getlines : Option (List ℕ) → List ℕ → List (List ℕ)
getlines none [] = []
getlines (some t) [] = t ∷ []
getlines current (c ∷ cs) = elim (c == b',') [
  | true ↦ or_empty current ∷ getlines none cs
  | false ↦ getlines (some (or_empty current ++ (c ∷ []))) cs
]

unfoldable pub token_of : List ℕ → Option Token
token_of t =
    if is_text t "seq"
    then some seq
    else if is_text t "random"
    then some random
    else if is_text t "stride"
    then some stride
    else if is_text t "seq_read"
    then some (detailed seq_read)
    else if is_text t "seq_write"
    then some (detailed seq_write)
    else if is_text t "random_read"
    then some (detailed random_read)
    else if is_text t "random_write"
    then some (detailed random_write)
    else if is_text t "stride_read"
    then some (detailed stride_read)
    else if is_text t "stride_write"
    then some (detailed stride_write)
    else if is_text t "pointer_chase"
    then some (detailed pointer_chase)
    else if is_text t "zipfian"
    then some zipfian
    else if is_text t "zipfian_read"
    then some (detailed zipfian_read)
    else none

unfoldable pub parse_tokens : List (List ℕ) → Option (List Token)
parse_tokens [] = some []
parse_tokens (t ∷ ts) = token_of t >>= (λ m. parse_tokens ts >>= (λ ms. some (m ∷ ms)))

abbrev pub nonempty : List Token → Option (List Token)
nonempty [] = none
nonempty (m ∷ ms) = some (m ∷ ms)

-- `none` is the return value 1.
unfoldable pub parse_modes : List ℕ → Option (List Token)
parse_modes mode =
    (if is_text mode "all"
      then some (seq ∷ random ∷ stride ∷ [])
      else parse_tokens (getlines none mode))
    >>= nonempty

unfoldable pub expand_mode : Token → List Test
expand_mode seq = seq_read ∷ seq_write ∷ []
expand_mode random = random_read ∷ random_write ∷ []
expand_mode stride = stride_read ∷ stride_write ∷ []
expand_mode zipfian = zipfian_read ∷ []
expand_mode (detailed t) = t ∷ []

-- A token is never "all", so that the branch for it is never taken.
unfoldable pub expand_modes : List Token → List Test
expand_modes [] = []
expand_modes (m ∷ ms) = expand_mode m ++ expand_modes ms

-- The variables `run_seq_read` and so on.
pub record Runs : Type 0 where
  pub seq_read : Bool
  pub seq_write : Bool
  pub random_read : Bool
  pub random_write : Bool
  pub stride_read : Bool
  pub stride_write : Bool
  pub zipfian_read : Bool
  pub pointer_chase : Bool

abbrev pub no_runs : Runs
no_runs = record {
  seq_read = false;
  seq_write = false;
  random_read = false;
  random_write = false;
  stride_read = false;
  stride_write = false;
  zipfian_read = false;
  pointer_chase = false;
}

unfoldable pub set_run : Test → Runs → Runs
set_run seq_read r = record r { seq_read = true }
set_run seq_write r = record r { seq_write = true }
set_run random_read r = record r { random_read = true }
set_run random_write r = record r { random_write = true }
set_run stride_read r = record r { stride_read = true }
set_run stride_write r = record r { stride_write = true }
set_run zipfian_read r = record r { zipfian_read = true }
set_run pointer_chase r = record r { pointer_chase = true }

unfoldable pub select_runs : List Test → Runs → Runs
select_runs [] r = r
select_runs (t ∷ ts) r = select_runs ts (set_run t r)

abbrev pub on_runs : Test → Runs → Bool
on_runs seq_read r = r.seq_read
on_runs seq_write r = r.seq_write
on_runs random_read r = r.random_read
on_runs random_write r = r.random_write
on_runs stride_read r = r.stride_read
on_runs stride_write r = r.stride_write
on_runs zipfian_read r = r.zipfian_read
on_runs pointer_chase r = r.pointer_chase

abbrev pub put : Bool → List ℕ → List ℕ
put true text = text
put false text = []

-- Written when the file has no header yet.
unfoldable pub header_line : Runs → List ℕ
header_line r =
    bytes_of "# Threads"
    ++ (put r.seq_read (bytes_of " SeqRead(GB/s)")
        ++ (put r.seq_write (bytes_of " SeqWrite(GB/s)")
            ++ (put r.random_read (bytes_of " RandRead(GB/s)")
                ++ (put r.random_write (bytes_of " RandWrite(GB/s)")
                    ++ (put r.stride_read (bytes_of " StrideRead(GB/s)")
                        ++ (put r.stride_write (bytes_of " StrideWrite(GB/s)")
                            ++ (put r.zipfian_read (bytes_of " ZipfianRead(GB/s)")
                                ++ (put r.pointer_chase (bytes_of " PointerChase(GB/s)")
                                    ++ (b'\n' ∷ [])))))))))

-- The variables `seq_read_bw` and so on, in the order in which the tests run.
pub record Bandwidths (Double : Type 0) : Type 0 where
  pub seq_read : Double
  pub seq_write : Double
  pub random_read : Double
  pub random_write : Double
  pub zipfian_read : Double
  pub stride_read : Double
  pub stride_write : Double
  pub pointer_chase : Double

module _ {Double : Type 0} (measure : Test → Double) (zero : Double) where
  abbrev pub measured : Bool → Test → Double
  measured true t = measure t
  measured false t = zero

  -- Messages, traces, latency logs and the pause before the pointer chase are left out.
  unfoldable pub run_tests : Runs → Bandwidths Double
  run_tests r = record {
    seq_read = measured r.seq_read seq_read;
    seq_write = measured r.seq_write seq_write;
    random_read = measured r.random_read random_read;
    random_write = measured r.random_write random_write;
    zipfian_read = measured r.zipfian_read zipfian_read;
    stride_read = measured r.stride_read stride_read;
    stride_write = measured r.stride_write stride_write;
    pointer_chase = measured r.pointer_chase pointer_chase;
  }

-- `print_int` is the format "%d", and `print` is " %.2f".
module _ {Double : Type 0} (print_int : ℕ → List ℕ) (print : Double → List ℕ) where
  unfoldable pub result_line : (num_threads : ℕ) → Runs → Bandwidths Double → List ℕ
  result_line n r b =
      print_int n
      ++ (put r.seq_read (print b.seq_read)
          ++ (put r.seq_write (print b.seq_write)
              ++ (put r.random_read (print b.random_read)
                  ++ (put r.random_write (print b.random_write)
                      ++ (put r.stride_read (print b.stride_read)
                          ++ (put r.stride_write (print b.stride_write)
                              ++ (put r.zipfian_read (print b.zipfian_read)
                                  ++ (put r.pointer_chase (print b.pointer_chase)
                                      ++ (b'\n' ∷ [])))))))))
