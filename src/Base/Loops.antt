-- ===== src/Base/Loops.antt =====
-- Counted loops, with one invariant rule.
use Prim.Native.Nat.{ℕ, zero, suc, ◌+◌, ◌<◌}
use mathlib.Core.Path.{◌≡◌}
use native.Mathlib.Omega.{arith}

-- A loop that runs `count` times, with a counter that starts at `from`.
unfoldable pub for_range {ℓ} : {S : Type ℓ} → (count from : ℕ) → (ℕ → S → S) → S → S
for_range zero from round state = state
for_range (suc left) from round state =
    let moved = round from state in for_range left (from + 1) round moved

-- From any first counter: what each round keeps, up to the counter `end`.
pub for_range-from {ℓ κ} :
    {S : Type ℓ} (Holds : ℕ → S → Type κ) (round : ℕ → S → S) (end : ℕ)
    → ((at : ℕ) (state : S) → at < end → Holds at state → Holds (at + 1) (round at state))
    → (left from : ℕ) → from + left ≡ end
    → (state : S) → Holds from state
    → Holds end (for_range left from round state)
unfolding for_range
for_range-from Holds round end step zero from sum state now =
    let there : from ≡ end = omega arith in rw (← there) now
for_range-from Holds round end step (suc left) from sum state now =
    let next = step from state (omega arith) now in
    for_range-from Holds round end step left (from + 1) (omega arith) (round from state) next

-- What holds at the start and is kept by each round of a loop from 0 holds at its end.
pub for_range_zero {ℓ κ} :
    {S : Type ℓ} (Holds : ℕ → S → Type κ) (round : ℕ → S → S) (count : ℕ)
    → ((at : ℕ) (state : S) → at < count → Holds at state → Holds (at + 1) (round at state))
    → (state : S) → Holds 0 state
    → Holds count (for_range count 0 round state)
for_range_zero Holds round count step state now =
    for_range-from Holds round count step count 0 (omega arith) state now
