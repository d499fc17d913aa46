-- ===== src/Base/Texts.antt =====
-- Texts that the program walks are lists of code units; texts that it only compares are strings.
-- Case mapping is that of ASCII: the texts that are mapped are hexadecimal addresses and keys, and a
-- regular expression that ignores case has ASCII letters only.
use Prim.Native.Char.{code, Char, char, IsScalar}
use Prim.Native.Nat.{ℕ, ◌+◌, ◌-◌, Ordering, compare}
use Prim.Native.String.{String}
use mathlib.Core.Path.{◌≡◌, refl}
use mathlib.Core.Logic.{◌↔◌, inl, inr}
use mathlib.Core.Bool.{Bool, true, false, ◌&&◌}
use mathlib.Core.List.{List, [], ◌∷◌, map}
use native.Mathlib.Omega.{arith}
use text.Mathlib.Text.{◌==◌ as str_eq}
use text.Mathlib.TextEquality.{eq_iff}
use chiliztv_com.Base.Tests.{leb, ◌==◌, if◌then◌else◌}
use chiliztv_com.Base.Lists.{any, Among}

abbrev pub Text : Type 0
Text = List ℕ

-- The code units of a literal.
abbrev pub codes : String → Text
codes String.[] = []
codes (String.◌∷◌ c s) = code c ∷ codes s

unfoldable pub lower : ℕ → ℕ
lower c = if leb b'A' c && leb c b'Z' then c + 32 else c

unfoldable pub upper : ℕ → ℕ
upper c = if leb b'a' c && leb c b'z' then c - 32 else c

-- `toLowerCase` and `toUpperCase`.
abbrev pub to_lower_case : Text → Text
to_lower_case s = map lower s

abbrev pub to_upper_case : Text → Text
to_upper_case s = map upper s

lower_idem : (c : ℕ) → lower (lower c) ≡ lower c
unfolding lower
lower_idem c = ground arith

pub to_lower_case_idem : (s : Text) → to_lower_case (to_lower_case s) ≡ to_lower_case s
to_lower_case_idem [] = refl
to_lower_case_idem (c ∷ s) = cc (lower_idem c, to_lower_case_idem s)

pub lower-IsScalar : (n : ℕ) → (leb b'A' n && leb n b'Z') ≡ true → IsScalar (n + 32)
lower-IsScalar n e = let low : compare (n + 32) 55296 ≡ Ordering.lt = ground arith in rw low tt

abbrev lower_from : (n : ℕ) → IsScalar n → (b : Bool) → (b ≡ true → IsScalar (n + 32)) → Char
lower_from n p true low = char (n + 32) (low refl)
lower_from n p false low = char n p

-- `toLowerCase` of one character and of a string.
unfoldable pub lower_char : Char → Char
lower_char (char n p) = lower_from n p (leb b'A' n && leb n b'Z') (lower-IsScalar n)

unfoldable pub lower_string : String → String
lower_string String.[] = String.[]
lower_string (String.◌∷◌ c s) = String.◌∷◌ (lower_char c) (lower_string s)

-- `===` on texts.
unfoldable pub text_eq : Text → Text → Bool
text_eq [] [] = true
text_eq (a ∷ s) (b ∷ t) = a == b && text_eq s t
text_eq _ _ = false

pub text_eq_iff : (s t : Text) → (text_eq s t ≡ true) ↔ (s ≡ t)
unfolding text_eq
text_eq_iff [] [] = ((λ _. refl), (λ _. refl))
text_eq_iff [] (b ∷ t) = ((λ e. cc), (λ e. cc))
text_eq_iff (a ∷ s) [] = ((λ e. cc), (λ e. cc))
text_eq_iff (a ∷ s) (b ∷ t) =
    ((λ e. ground (arith, text_eq_iff s t)), (λ e. ground (arith, text_eq_iff s t)))

-- `Set.has` on a set of strings that is built from a list.
abbrev pub has : List String → String → Bool
has xs s = any (str_eq s) xs

pub has_iff : (xs : List String) (s : String) → (has xs s ≡ true) ↔ Among s xs
has_iff [] s = ((λ e. cc), (λ e. absurd e))
has_iff (x ∷ xs) s = ground (arith, eq_iff s x, has_iff xs s)

-- Two lists of strings that share none.
abbrev is_disjoint : List String → List String → Bool
is_disjoint [] ys = true
is_disjoint (x ∷ xs) ys = if has ys x then false else is_disjoint xs ys

pub has_of_is_disjoint :
    (xs ys : List String) (s : String) → is_disjoint xs ys ≡ true → Among s xs → has ys s ≡ false
has_of_is_disjoint [] ys s d m = absurd m
has_of_is_disjoint (x ∷ xs) ys s d (inl e) = rw e (ground arith)
has_of_is_disjoint (x ∷ xs) ys s d (inr m) = has_of_is_disjoint xs ys s (ground arith) m

pub not-Among_of_is_disjoint :
    (xs ys : List String) (s : String) → is_disjoint xs ys ≡ true → Among s xs → ¬ Among s ys
not-Among_of_is_disjoint xs ys s d m n =
    ground (arith, has_of_is_disjoint xs ys s d m, (has_iff ys s).1 n)
