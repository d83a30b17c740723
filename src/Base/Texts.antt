-- ===== src/Base/Texts.antt =====
-- Texts as lists of bytes without the final NUL, compared as `strcmp` and `==` on strings do.
use Prim.Native.Nat.{ℕ}
use Prim.Native.Char.{code}
use Prim.Native.String.{String}
use mathlib.Core.Bool.{Bool, true, false, ◌&&◌}
use mathlib.Core.List.{List, [], ◌∷◌}
use mio_xcena.Base.Tests.{◌==◌}

abbrev pub bytes_of : String → List ℕ
bytes_of String.[] = []
bytes_of (String.◌∷◌ c s) = code c ∷ bytes_of s

abbrev pub is_same : List ℕ → List ℕ → Bool
is_same [] [] = true
is_same [] (d ∷ ds) = false
is_same (c ∷ cs) [] = false
is_same (c ∷ cs) (d ∷ ds) = c == d && is_same cs ds

-- Whether a text is the given literal.
unfoldable pub is_text : List ℕ → String → Bool
is_text t literal = is_same t (bytes_of literal)
