-- ===== src/Base/Text.antt =====
-- Go strings as lists of bytes, with the functions of `strings` and `bytes` that the source calls.
use Prim.Native.Nat.{ℕ, ◌+◌}
use Prim.Native.Char.{code}
use Prim.Native.String.{String}
use mathlib.Core.Path.{◌≡◌, refl}
use mathlib.Core.Logic.{◌↔◌}
use mathlib.Core.Bool.{Bool, true, false, ◌&&◌}
use mathlib.Core.List.{List, [], ◌∷◌, map, reverse}
use native.Mathlib.Omega.{arith}
use gql_firewall.Base.Tests.{◌==◌, leb, if◌then◌else◌}

abbrev pub Bytes : Type 0
Bytes = List ℕ

-- The bytes of an ASCII literal.
abbrev pub codes : String → Bytes
codes String.[] = []
codes (String.◌∷◌ c s) = code c ∷ codes s

abbrev pub is_empty : Bytes → Bool
is_empty [] = true
is_empty (c ∷ s) = false

-- `==` on strings.
unfoldable pub bytes_equal : Bytes → Bytes → Bool
bytes_equal [] [] = true
bytes_equal [] (d ∷ t) = false
bytes_equal (c ∷ s) [] = false
bytes_equal (c ∷ s) (d ∷ t) = c == d && bytes_equal s t

eq_of_bytes_equal : (s t : Bytes) → bytes_equal s t ≡ true → s ≡ t
unfolding bytes_equal
eq_of_bytes_equal [] [] h = refl
eq_of_bytes_equal [] (d ∷ t) h = ground arith
eq_of_bytes_equal (c ∷ s) [] h = ground arith
eq_of_bytes_equal (c ∷ s) (d ∷ t) h = ground (arith, eq_of_bytes_equal s t)

pub bytes_equal_refl : (s : Bytes) → bytes_equal s s ≡ true
unfolding bytes_equal
bytes_equal_refl [] = refl
bytes_equal_refl (c ∷ s) = ground (arith, bytes_equal_refl s)

pub bytes_equal_iff : (s t : Bytes) → (bytes_equal s t ≡ true) ↔ (s ≡ t)
bytes_equal_iff s t = (eq_of_bytes_equal s t, λ e. rw e (bytes_equal_refl t))

-- `strings.HasPrefix(s, p)`.
unfoldable pub has_prefix : Bytes → Bytes → Bool
has_prefix s [] = true
has_prefix [] (c ∷ p) = false
has_prefix (d ∷ s) (c ∷ p) = d == c && has_prefix s p

-- `strings.HasSuffix(s, p)`.
unfoldable pub has_suffix : Bytes → Bytes → Bool
unfolding has_prefix
has_suffix s p = has_prefix (reverse s) (reverse p)

-- `strings.ToLower` on ASCII letters; other bytes stay.
unfoldable pub lower_byte : ℕ → ℕ
lower_byte c = if leb b'A' c && leb c b'Z' then c + 32 else c

unfoldable pub to_lower : Bytes → Bytes
unfolding lower_byte
to_lower = map lower_byte
