-- ===== src/Base/Strings.antt =====
-- Rust's `String` and `str` as lists of code points, with the parts of the standard library that
-- the program calls on them.
use Prim.Native.Char.{code}
use Prim.Native.String.{String}
use Prim.Native.Nat.{ℕ}
use mathlib.Core.Path.{◌≡◌, refl}
use mathlib.Core.Logic.{◌↔◌, ◌≢◌}
use mathlib.Core.Bool.{Bool, true, false, ◌&&◌, ◌||◌}
use mathlib.Core.List.{List, [], ◌∷◌, ◌++◌}
use native.Mathlib.Omega.{arith}
use ssh_hunt.Base.Tests.{ltb, ◌==◌, if◌then◌else◌}
use ssh_hunt.Base.Lists.{All}

abbrev pub Text : Type 0
Text = List ℕ

-- A literal.
abbrev pub text : String → Text
text String.[] = []
text (String.◌∷◌ c s) = code c ∷ text s

-- `==` on texts.
unfoldable pub text_eq : Text → Text → Bool
text_eq [] [] = true
text_eq [] (b ∷ t) = false
text_eq (a ∷ s) [] = false
text_eq (a ∷ s) (b ∷ t) = a == b && text_eq s t

pub text_eq_iff : (s t : Text) → (text_eq s t ≡ true) ↔ (s ≡ t)
unfolding text_eq
text_eq_iff [] [] = ground arith
text_eq_iff [] (b ∷ t) = ground arith
text_eq_iff (a ∷ s) [] = ground arith
text_eq_iff (a ∷ s) (b ∷ t) = ground (arith, text_eq_iff s t)

pub text_eq_refl : (s : Text) → text_eq s s ≡ true
text_eq_refl s = (text_eq_iff s s).1 refl

pub text_eq_comm : (s t : Text) → text_eq s t ≡ text_eq t s
text_eq_comm s t = ground (arith, text_eq_iff s t, text_eq_iff t s)

-- The order of `Ord for str`: by code points, as UTF-8 keeps their order.
unfoldable pub text_lt : Text → Text → Bool
text_lt s [] = false
text_lt [] (b ∷ t) = true
text_lt (a ∷ s) (b ∷ t) = ltb a b || a == b && text_lt s t

-- `str::starts_with`, at a text.
unfoldable pub starts_with : Text → Text → Bool
starts_with [] s = true
starts_with (a ∷ p) [] = false
starts_with (a ∷ p) (b ∷ s) = a == b && starts_with p s

pub starts_with-append : (p s : Text) → starts_with p (p ++ s) ≡ true
unfolding starts_with
starts_with-append [] s = refl
starts_with-append (a ∷ p) s = ground (arith, starts_with-append p s)

-- The text behind the prefix.
pub starts_with_split : (p s : Text) → starts_with p s ≡ true → (r : Text) × (s ≡ p ++ r)
unfolding starts_with
starts_with_split [] s h = (s, refl)
starts_with_split (a ∷ p) [] h = absurd (ground arith)
starts_with_split (a ∷ p) (b ∷ s) h =
    let (r, e) = starts_with_split p s (ground arith) in (r, ground arith)

-- `str::contains`, at a character.
unfoldable pub contains_char : ℕ → Text → Bool
contains_char c [] = false
contains_char c (x ∷ s) = x == c || contains_char c s

-- `str::contains`, at a text.
unfoldable pub contains_text : Text → Text → Bool
contains_text p [] = starts_with p []
contains_text p (x ∷ s) = starts_with p (x ∷ s) || contains_text p s

abbrev push_front : ℕ → List Text → List Text
push_front x [] = (x ∷ []) ∷ []
push_front x (p ∷ ps) = (x ∷ p) ∷ ps

-- `str::split`, at a character: one piece more than there are separators.
unfoldable pub split : ℕ → Text → List Text
split c [] = [] ∷ []
split c (x ∷ s) = let rest = split c s in if x == c then [] ∷ rest else push_front x rest

-- `[String]::join`, with a separator of one character.
unfoldable pub join : ℕ → List Text → Text
join c [] = []
join c (p ∷ []) = p
join c (p ∷ q ∷ ps) = p ++ (c ∷ join c (q ∷ ps))

-- The character does not occur.
abbrev pub Lacks : ℕ → Text → Type 0
Lacks c = All (λ x. x ≢ c)

-- `text_lt` is a strict order.
pub text_lt_trans : (s t u : Text) → text_lt u t ≡ false → text_lt t s ≡ false → text_lt u s ≡ false
unfolding text_lt
text_lt_trans [] t u p q = refl
text_lt_trans (a ∷ s) [] u p q = absurd (cc)
text_lt_trans (a ∷ s) (b ∷ t) [] p q = absurd (cc)
text_lt_trans (a ∷ s) (b ∷ t) (c ∷ u) p q = ground (arith, text_lt_trans s t u)

pub text_lt_asym : (s t : Text) → text_lt s t ≡ true → text_lt t s ≡ false
unfolding text_lt
text_lt_asym [] [] p = refl
text_lt_asym [] (b ∷ t) p = refl
text_lt_asym (a ∷ s) [] p = absurd (cc)
text_lt_asym (a ∷ s) (b ∷ t) p = ground (arith, text_lt_asym s t)
