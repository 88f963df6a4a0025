-- ===== src/Base/Decimal.antt =====
-- `to_string` on integers. The rounds left bound the digits; a number is above its digit count.
use Prim.Native.Nat.{ℕ, zero, suc, ◌+◌, ◌/◌, ◌%◌}
use mathlib.Core.List.{[], ◌∷◌, ◌++◌}
use ssh_hunt.Base.Tests.{ltb, if◌then◌else◌}
use ssh_hunt.Base.Int.{ℤ, pos, negsuc}
use ssh_hunt.Base.Strings.{Text}

pub show_digits : ℕ → ℕ → Text
show_digits zero n = []
show_digits (suc rounds) n =
    let front = show_digits rounds (n / 10) in
    if ltb n 10 then (b'0' + n) ∷ [] else front ++ (b'0' + n % 10) ∷ []

unfoldable pub show_int : ℤ → Text
unfolding show_digits
show_int (pos n) = show_digits (suc n) n
show_int (negsuc n) = b'-' ∷ show_digits (suc (suc n)) (suc n)
