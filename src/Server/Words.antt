-- ===== src/Server/Words.antt =====
-- ssh-hunt/crates/ssh_hunt_server/src/builtins.rs: what the commands do with their arguments and with the
-- lines of their input.
use ssh_hunt.Base.{
  ℕ, zero, suc, ◌+◌, ◌-◌, ◌*◌, Bool, true, false, not, ◌&&◌, Option, none, some, List, [], ◌∷◌,
  ◌++◌, Text, text, text_eq, starts_with, split, join, length, drop, any, is_empty, filter_by,
  if◌then◌else◌, ltb, leb, ◌==◌,
}
use ssh_hunt.Base.Int.{pos}
use ssh_hunt.Base.Decimal.{show_int}

-- The value of digits below `base`.
unfoldable pub digits : ℕ → ℕ → Text → Option ℕ
digits base acc [] = some acc
digits base acc (c ∷ s) =
    let rest = digits base (acc * base + (c - b'0')) s in
    if leb b'0' c && ltb c (b'0' + base) then rest else none

abbrev below : ℕ → Option ℕ → Option ℕ
below limit none = none
below limit (some n) = if ltb n limit then some n else none

-- `parse` and `from_str_radix` on an unsigned type with `limit` values: a sign `+` may come first.
unfoldable pub parse_unsigned : ℕ → ℕ → Text → Option ℕ
unfolding digits
parse_unsigned base limit [] = none
parse_unsigned base limit (c ∷ s) =
    if c == b'+'
    then if is_empty s then none else below limit (digits base 0 s)
    else below limit (digits base 0 (c ∷ s))

abbrev pub parse_usize : Text → Option ℕ
parse_usize = parse_unsigned 10 18446744073709551616

abbrev pub is_number : Text → Bool
is_number s = elim (parse_usize s) [ none ↦ false | some n ↦ true ]

abbrev pub is_flag : Text → Bool
is_flag a = starts_with (text "-") a

-- The arguments that are no flags.
abbrev pub positional : List Text → List Text
positional args = filter_by (λ a. not (is_flag a)) args

abbrev pub has_arg : Text → List Text → Bool
has_arg flag args = any (λ a. text_eq a flag) args

abbrev first_number : List Text → Option ℕ
first_number [] = none
first_number (a ∷ args) = parse_usize a

-- the count that the argument gives, with those behind it
abbrev count_at : Text → List Text → Option ℕ
count_at a args =
    if text_eq a (text "-n")
    then first_number args
    else if starts_with (text "-n") a
    then parse_usize (drop 2 a)
    else parse_usize a

unfoldable pub parse_n_flag : List Text → ℕ → ℕ
parse_n_flag [] default = default
parse_n_flag (a ∷ args) default =
    let rest = parse_n_flag args default in elim (count_at a args) [ none ↦ rest | some n ↦ n ]

abbrev drop_empty_end : List Text → List Text
drop_empty_end [] = []
drop_empty_end (l ∷ []) = if is_empty l then [] else l ∷ []
drop_empty_end (l ∷ k ∷ ls) = l ∷ drop_empty_end (k ∷ ls)

-- a line without the carriage return at its end
abbrev strip_return : Text → Text
strip_return [] = []
strip_return (c ∷ []) = if c == 13 then [] else c ∷ []
strip_return (c ∷ d ∷ s) = c ∷ strip_return (d ∷ s)

-- The last line of a text that does not end with a line feed keeps its carriage return.
abbrev strip_returns : List Text → List Text
strip_returns [] = []
strip_returns (l ∷ []) = l ∷ []
strip_returns (l ∷ k ∷ ls) = strip_return l ∷ strip_returns (k ∷ ls)

-- `str::lines`
unfoldable pub lines : Text → List Text
lines s = drop_empty_end (strip_returns (split b'\n' s))

abbrev pub unlines : List Text → Text
unlines ls = join b'\n' ls

-- `str::replace` of a pattern of two characters
unfoldable pub replace_pair : ℕ → ℕ → Text → Text → Text
replace_pair a b new [] = []
replace_pair a b new (x ∷ []) = x ∷ []
replace_pair a b new (x ∷ y ∷ s) =
    let behind = replace_pair a b new s in
    let rest = replace_pair a b new (y ∷ s) in if x == a && y == b then new ++ behind else x ∷ rest

-- `str::replace` of a character
unfoldable pub replace_char : ℕ → Text → Text → Text
replace_char c new [] = []
replace_char c new (x ∷ s) = (if x == c then new else x ∷ []) ++ replace_char c new s

abbrev backslash : ℕ
backslash = 92

-- The escapes of `echo -e`.
unfoldable pub interpreted : Text → Text
unfolding replace_pair replace_char
interpreted raw = replace_char 0 (backslash ∷ []) (
    replace_pair backslash b'r' (13 ∷ []) (
      replace_pair backslash b't' (9 ∷ [])
        (replace_pair backslash b'n' (10 ∷ []) (replace_pair backslash backslash (0 ∷ []) raw))))

-- `{:6}` on a number
abbrev pub pad_left : ℕ → Text → Text
pad_left zero s = s
pad_left (suc n) s = if leb (suc n) (length s) then s else b' ' ∷ pad_left n s

unfoldable pub numbered : ℕ → List Text → List Text
numbered n [] = []
numbered n (l ∷ ls) = (pad_left 6 (show_int (pos n)) ++ 9 ∷ l) ∷ numbered (suc n) ls
