-- ===== src/Base/Text.antt =====
-- Text as its code points, and the conversion of folly (`toAppend`) of unsigned numbers to text.
use Prim.Native.Nat.{ℕ, ◌≤◌}
use Prim.Native.Char.{code}
use Prim.Native.String.{String}
use mathlib.Core.Path.{◌≡◌}
use mathlib.Core.Logic.{◌≢◌}
use mathlib.Core.List.{List, [], ◌∷◌}
use api_pack.Base.Lists.{All}

abbrev pub Text : Type 0
Text = List ℕ

-- The code points of a literal.
abbrev pub codes : String → Text
codes String.[] = []
codes (String.◌∷◌ c s) = code c ∷ codes s

abbrev pub IsDigit : ℕ → Type 0
IsDigit c = (48 ≤ c) × (c ≤ 57)

-- folly prints an unsigned number in decimal: digits only, at least one, and different numbers
-- differently. An enumerator is printed as the number that it stands for.
pub record Decimal : Type 0 where
  pub print : ℕ → Text
  pub print-IsDigit : (n : ℕ) → All IsDigit (print n)
  pub print-ne-nil : (n : ℕ) → print n ≢ []
  pub print_inj : (m n : ℕ) → print m ≡ print n → m ≡ n
