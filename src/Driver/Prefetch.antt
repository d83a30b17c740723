-- ===== src/Driver/Prefetch.antt =====
-- src/hw_prefetcher.cpp: the state of the hardware prefetcher is saved, set and restored.
--
-- The commands `rdmsr` and `wrmsr` are parameters, and the register they work on is of a type of its own.
use mio_xcena.Base.{
  ℕ, Bool, true, false, ◌||◌, ◌==◌, if◌then◌else◌, Option, none, some, List, [], ◌∷◌, ◌++◌,
  bytes_of,
}

-- The line that `rdmsr 0x1A4` prints, if any, and for `wrmsr -a 0x1A4` whether it succeeds and the
-- register after it.
pub record Shell (Register : Type 0) : Type 0 where
  pub rdmsr : Register → Option (List ℕ)
  pub wrmsr : List ℕ → Register → Bool × Register

pub record Prefetcher (Register : Type 0) : Type 0 where
  pub register : Register
  pub saved_prefetcher_state : List ℕ
  pub prefetcher_state_saved : Bool

abbrev pub is_blank : ℕ → Bool
is_blank c = c == b' ' || (c == b'\n' || (c == b'\r' || c == b'\t'))

abbrev pub cons_trimmed : ℕ → List ℕ → List ℕ
cons_trimmed c [] = if is_blank c then [] else c ∷ []
cons_trimmed c (d ∷ ds) = c ∷ (d ∷ ds)

-- `s.erase(s.find_last_not_of(" \n\r\t") + 1)`.
unfoldable pub erase_trailing : List ℕ → List ℕ
erase_trailing [] = []
erase_trailing (c ∷ cs) = cons_trimmed c (erase_trailing cs)

module _ {Register : Type 0} (shell : Shell Register) where
  abbrev pub save_line : Prefetcher Register → Option (List ℕ) → Bool × Prefetcher Register
  save_line p none = (false, p)
  save_line p (some line) = (
    true,
    record p { saved_prefetcher_state = erase_trailing line; prefetcher_state_saved = true },
  )

  unfoldable pub save_prefetcher_state : Prefetcher Register → Bool × Prefetcher Register
  save_prefetcher_state p = save_line p (shell.rdmsr p.register)

  unfoldable pub set_prefetcher_state : Bool → Prefetcher Register → Bool × Prefetcher Register
  set_prefetcher_state enable p =
      let value = if enable then bytes_of "0x0" else bytes_of "0xf" in
      let r = shell.wrmsr value p.register in (r.0, record p { register = r.1 })

  abbrev pub restore_saved : Bool → Prefetcher Register → Prefetcher Register
  restore_saved false p = p
  restore_saved true p = record p {
    register = (shell.wrmsr (bytes_of "0x" ++ p.saved_prefetcher_state) p.register).1;
  }

  unfoldable pub restore_prefetcher_state : Prefetcher Register → Prefetcher Register
  restore_prefetcher_state p = restore_saved p.prefetcher_state_saved p

  -- The exit code, and the state that is left behind.
  unfoldable pub signal_handler : (signum : ℕ) → Prefetcher Register → ℕ × Prefetcher Register
  unfolding restore_prefetcher_state
  signal_handler signum p = (signum, restore_prefetcher_state p)
