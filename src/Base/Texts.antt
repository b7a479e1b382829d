-- ===== src/Base/Texts.antt =====
-- Equality and prefixes of texts, as the program's `==`, `in` and `startswith` use them.
use Prim.Native.String.{String, ◌++◌}
use mathlib.Core.Path.{◌≡◌}
use mathlib.Core.Logic.{◌≢◌}
use mathlib.Core.Bool.{Bool, true, false, ◌||◌}
use mathlib.Core.List.{List, [], ◌∷◌}
use native.Mathlib.Omega.{arith}
use text.Mathlib.TextPositions.{starts_with_of_prefix}
use text.Mathlib.TextLemmas.{append-nil}
use text.Mathlib.Text.{◌==◌}
pub use text.Mathlib.Text.{starts_with}
pub use text.Mathlib.TextEquality.{eq_iff}

abbrev pub str_eq : String → String → Bool
str_eq = ◌==◌

-- `s + t`
abbrev pub join : String → String → String
join = ◌++◌

-- `k in names`
unfoldable pub str_in : String → List String → Bool
str_in k [] = false
str_in k (x ∷ xs) = str_eq x k || str_in k xs

pub str_eq_self : (s : String) → str_eq s s ≡ true
str_eq_self s = ground (arith, eq_iff s s)

pub str_eq_ne : (s t : String) → s ≢ t → str_eq s t ≡ false
str_eq_ne s t h = ground (arith, eq_iff s t)

pub starts_with_self : (s : String) → starts_with s s ≡ true
starts_with_self s = starts_with_of_prefix s s ("", append-nil s)
