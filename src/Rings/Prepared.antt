-- ===== src/Rings/Prepared.antt =====
-- What the first loop of `read_rdma` (custom-test/test4-nowait.c) leaves, as the monitor sees it.
use mio_xcena.Base.{
  ℕ, zero, suc, ◌+◌, ◌<◌, ◌^◌, ◌≡◌, refl, Bool, true, false, ◌&&◌, not, Bool-cases, inl, inr,
  Option, none, some, ◌>>=◌, List, [], ◌∷◌, ◌++◌, u32, arith,
}
use mio_xcena.Monitor.{
  Handle, scratch, request, Event, acquire, open_gate, acquire_if, Watch, watch, fresh,
}
use mio_xcena.Monitor.Steps.{watch-append, put}
use mio_xcena.Rings.Run.{Reader, Exit, ready, failed, no_rings, Prepared, prepare, allocations}

-- Refused, or accepted in a state that has `P`.
abbrev pub After : (Watch → Type 0) → Option Watch → Type 0
After P none = Unit {0}
After P (some w) = P w

abbrev pub Never : Watch → Type 0
Never w = ⊥

pub After-next :
    (P Q : Watch → Type 0) (o : Option Watch) (f : Watch → Option Watch)
    → After P o
    → ((w : Watch) → P w → After Q (f w))
    → After Q (o >>= f)
After-next P Q none f p next = tt
After-next P Q (some w) f p next = next w p

pub After-append :
    (h : Handle) (k : ℕ) (P Q : Watch → Type 0) (xs ys : List Event) (w : Watch)
    → After P (watch h k xs w)
    → ((v : Watch) → P v → After Q (watch h k ys v))
    → After Q (watch h k (xs ++ ys) w)
After-append h k P Q xs ys w p next =
    rw (watch-append h k xs ys w) (After-next P Q (watch h k xs w) (watch h k ys) p next)

-- What is refused stays refused.
pub Never-append :
    (h : Handle) (k : ℕ) (xs ys : List Event) (w : Watch)
    → After Never (watch h k xs w)
    → After Never (watch h k (xs ++ ys) w)
Never-append h k xs ys w p = After-append h k Never Never xs ys w p (λ v none. absurd none)

pub Never-none : (o : Option Watch) → After Never o → o ≡ none
Never-none none p = refl
Never-none (some w) p = absurd p

-- `n` threads were started, but not this one; the gate is shut.
pub record IsShut (n : ℕ) (w : Watch) : Type 0 where
  pub idle : w.running ≡ false
  pub count : w.started ≡ n
  pub shut : w.opened ≡ false

pub allocations-IsShut : (h : Handle) (k : ℕ) → After (IsShut 0) (watch h k allocations fresh)
unfolding watch
allocations-IsShut h k = ground arith

taken-IsShut :
    (h : Handle) (k i : ℕ) (has : Bool) (w : Watch)
    → IsShut 0 w
    → After (IsShut 0) (watch h k (acquire_if has (scratch i) ++ (acquire (request i) ∷ [])) w)
unfolding watch
taken-IsShut h k i has w s = ground arith

-- What the first loop leaves, by its exit: the counter, and the state of the monitor.
abbrev pub Counts : (upto : ℕ) → Exit → (created : ℕ) → Type 0
Counts upto ready created = created ≡ upto
Counts upto failed created = Unit {0}
Counts upto no_rings created = ⊥

abbrev pub Left : Exit → Option Watch → Type 0
Left ready o = After (IsShut 0) o
Left failed o = After Never o
Left no_rings o = Unit {0}

pub Left-append :
    (h : Handle) (k : ℕ) (e : Exit) (xs ys : List Event) (w : Watch)
    → After (IsShut 0) (watch h k xs w)
    → ((v : Watch) → IsShut 0 v → Left e (watch h k ys v))
    → Left e (watch h k (xs ++ ys) w)
Left-append h k ready xs ys w p next = After-append h k (IsShut 0) (IsShut 0) xs ys w p next
Left-append h k failed xs ys w p next = After-append h k (IsShut 0) Never xs ys w p next
Left-append h k no_rings xs ys w p next = tt

pub record IsPrepared (h : Handle) (k upto : ℕ) (p : Prepared) : Type 0 where
  pub counts : Counts upto p.exit p.created
  pub left : (w : Watch) → IsShut 0 w → Left p.exit (watch h k p.events w)

too_many :
    (h : Handle) (k n : ℕ) (w : Watch)
    → 0 < n
    → IsShut 0 w
    → After Never (watch h k (open_gate n ∷ []) w)
unfolding watch
too_many h k n w pos s = ground arith

module _ (copy_to_dst : Bool) (reader : ℕ → Reader) where
  -- All rings exist, and the first reader gets its buffer.
  pub record IsStarted : Type 0 where
    pub rings : (i : ℕ) → (reader i).rings ≡ true
    pub first : (copy_to_dst && not (reader 0).scratch) ≡ false

  not_first :
      (i : ℕ) → IsStarted → (copy_to_dst && not (copy_to_dst && (reader i).scratch)) ≡ true → 0 < i
  not_first zero g e = ground arith
  not_first (suc i) g e = omega arith

  pub prepare-IsPrepared :
      (h : Handle) (k left i upto : ℕ) (buffers : ℕ → Bool)
      → IsStarted
      → i + left ≡ upto
      → upto < 2 ^ 32
      → IsPrepared h k upto (prepare copy_to_dst reader left i i buffers)
  unfolding prepare watch
  prepare-IsPrepared h k zero i upto buffers g sum small = record {
    counts = omega arith;
    left = λ w s. s;
  }
  prepare-IsPrepared h k (suc left) i upto buffers g sum small =
      let has : Bool = copy_to_dst && (reader i).scratch in
      let exact : u32 (i + 1) ≡ i + 1 = omega arith in
      let r = prepare-IsPrepared h k left (i + 1) upto (put buffers i has) g (omega arith) small in
      elim (Bool-cases (copy_to_dst && not has)) [
        | inl none_there ↦ rw none_there (record {
          counts = tt;
          left = λ w s.
              After-append h k (IsShut 0) Never
                (acquire_if has (scratch i) ++ (acquire (request i) ∷ [])) (open_gate i ∷ []) w
                (taken-IsShut h k i has w s) (λ v t. too_many h k i v (not_first i g none_there) t);
        })
        | inr there ↦
            rw (there, g.rings i, exact)
              (record {
                counts = r.counts;
                left = λ w s.
                    Left-append h k _ (acquire_if has (scratch i) ++ (acquire (request i) ∷ [])) _ w
                      (taken-IsShut h k i has w s) r.left;
              })
      ]
