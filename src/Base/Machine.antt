-- ===== src/Base/Machine.antt =====
-- `i64` and `i32`: release builds wrap around on overflow.
use Prim.Native.Nat.{ℕ, ◌-◌, ◌/◌, ◌%◌, ◌≤◌, ◌<◌, suc}
use mathlib.Core.Path.{◌≡◌}
use native.Mathlib.Omega.{arith}
use ssh_hunt.Base.Tests.{ltb, if◌then◌else◌}
use ssh_hunt.Base.Int.{ℤ, pos, negsuc, sub_ℕ, ◌-ℤ◌, ◌≤ℤ◌, pos_part, neg_part}

abbrev half_64 : ℕ
half_64 = 9223372036854775808

abbrev half_32 : ℕ
half_32 = 2147483648

unfoldable pub wrap_i64 : ℤ → ℤ
wrap_i64 (pos n) =
    let r = n % 18446744073709551616 in
    if ltb r half_64 then pos r else negsuc (18446744073709551615 - r)
wrap_i64 (negsuc n) =
    let r = n % 18446744073709551616 in
    if ltb r half_64 then negsuc r else pos (18446744073709551615 - r)

unfoldable pub wrap_i32 : ℤ → ℤ
wrap_i32 (pos n) =
    let r = n % 4294967296 in if ltb r half_32 then pos r else negsuc (4294967295 - r)
wrap_i32 (negsuc n) =
    let r = n % 4294967296 in if ltb r half_32 then negsuc r else pos (4294967295 - r)

abbrev pub FitsI64 : ℤ → Type 0
FitsI64 x = (pos_part x < half_64) × (neg_part x ≤ half_64)

abbrev pub FitsI32 : ℤ → Type 0
FitsI32 x = (pos_part x < half_32) × (neg_part x ≤ half_32)

pub wrap_i64_fits : (x : ℤ) → FitsI64 x → wrap_i64 x ≡ x
unfolding wrap_i64
wrap_i64_fits x h = ground arith

pub wrap_i32_fits : (x : ℤ) → FitsI32 x → wrap_i32 x ≡ x
unfolding wrap_i32
wrap_i32_fits x h = ground arith

-- `/` and `%` by a positive number round towards zero.
abbrev pub quotient : ℤ → ℕ → ℤ
quotient (pos n) d = pos (n / d)
quotient (negsuc n) d = sub_ℕ 0 (suc n / d)

abbrev pub remainder : ℤ → ℕ → ℤ
remainder (pos n) d = pos (n % d)
remainder (negsuc n) d = sub_ℕ 0 (suc n % d)

-- Paying no more than there is cannot overflow.
pub fits_paid : (a b : ℤ) → FitsI64 a → b ≤ℤ a → pos 0 ≤ℤ b → FitsI64 (a -ℤ b)
unfolding ◌-ℤ◌
fits_paid a b fit can pays = ground arith
