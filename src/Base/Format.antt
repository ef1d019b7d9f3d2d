-- ===== src/Base/Format.antt =====
-- The verbs of `fmt` that the source prints numbers with.
use Prim.Native.Nat.{ℕ, zero, suc, ◌+◌, ◌-◌, ◌/◌, ◌%◌}
use mathlib.Core.List.{[], ◌∷◌}
use gql_firewall.Base.Tests.{ltb, if◌then◌else◌}
use gql_firewall.Base.Lists.{length}
use gql_firewall.Base.Text.{Bytes}

abbrev pub hex_digit : ℕ → ℕ
hex_digit n = if ltb n 10 then n + b'0' else n + 87

-- `%x` of bytes.
unfoldable pub hex : Bytes → Bytes
hex [] = []
hex (c ∷ s) = hex_digit (c / 16) ∷ hex_digit (c % 16) ∷ hex s

-- The digits of a number below `base ^ fuel`, in front of `tail`.
unfoldable pub digits_from : ℕ → ℕ → ℕ → Bytes → Bytes
digits_from zero base n tail = tail
digits_from (suc fuel) base n tail =
    let more = digits_from fuel base (n / base) (hex_digit (n % base) ∷ tail) in
    if ltb n base then hex_digit n ∷ tail else more

-- `%d`: an `int` has at most 19 decimal digits.
unfoldable pub decimal : ℕ → Bytes
unfolding digits_from
decimal n = digits_from 19 10 n []

unfoldable pub pad_left : ℕ → Bytes → Bytes
pad_left zero s = s
pad_left (suc k) s = b'0' ∷ pad_left k s

-- `%08x` of a uint64, which has at most 16 hexadecimal digits.
unfoldable pub hex8 : ℕ → Bytes
unfolding digits_from pad_left
hex8 h = let s = digits_from 16 16 h [] in pad_left (8 - length s) s
