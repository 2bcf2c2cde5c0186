-- ===== src/Prelude/Bytes.antt =====
-- std::string as a list of bytes: equality, the order of std::string, trimming and searching.
use Prim.Native.Char.{code}
use Prim.Native.Nat.{ℕ, ◌+◌, ◌-◌}
use Prim.Native.String.{String}
use mathlib.Core.Path.{◌≡◌, refl}
use mathlib.Core.Logic.{◌↔◌}
use mathlib.Core.Bool.{Bool, true, false, ◌&&◌, ◌||◌}
use mathlib.Core.Option.{Option, none, some}
use mathlib.Core.List.{List, [], ◌∷◌}
use native.Mathlib.Omega.{arith}
use attractor.Prelude.Tests.{ltb, leb, nat_eq, if◌then◌else◌}

abbrev pub Text : Type 0
Text = List ℕ

-- The bytes of a literal (every literal of the model is ASCII). Shut, so that proofs treat a
-- literal as one unknown; tests unfold it.
unfoldable pub text : String → Text
text String.[] = []
text (String.◌∷◌ c s) = code c ∷ text s

-- `==` of std::string.
infix 50 ◌==◌
unfoldable pub ◌==◌ : Text → Text → Bool
[] == [] = true
[] == (b ∷ t) = false
(a ∷ s) == [] = false
(a ∷ s) == (b ∷ t) = if nat_eq a b then s == t else false

==→≡ : (s t : Text) → (s == t) ≡ true → s ≡ t
unfolding ◌==◌
==→≡ [] [] h = refl
==→≡ [] (b ∷ t) h = ground arith
==→≡ (a ∷ s) [] h = ground arith
==→≡ (a ∷ s) (b ∷ t) h = ground (arith, ==→≡ s t)

pub ==_refl : (s : Text) → (s == s) ≡ true
unfolding ◌==◌
==_refl [] = refl
==_refl (a ∷ s) = ground (arith, ==_refl s)

pub ==_iff : (s t : Text) → ((s == t) ≡ true) ↔ (s ≡ t)
==_iff s t = (==→≡ s t, λ e. rw e (==_refl t))

-- `<` of std::string: bytewise, a prefix first.
unfoldable pub text_lt : Text → Text → Bool
text_lt [] [] = false
text_lt [] (b ∷ t) = true
text_lt (a ∷ s) [] = false
text_lt (a ∷ s) (b ∷ t) = if ltb a b then true else if ltb b a then false else text_lt s t

pub text_lt_irrefl : (s : Text) → text_lt s s ≡ false
unfolding text_lt
text_lt_irrefl [] = refl
text_lt_irrefl (a ∷ s) = ground (arith, text_lt_irrefl s)

pub text_lt_trans : (s t u : Text) → text_lt s t ≡ true → text_lt t u ≡ true → text_lt s u ≡ true
unfolding text_lt
text_lt_trans [] [] u h k = ground arith
text_lt_trans [] (b ∷ t) [] h k = ground arith
text_lt_trans [] (b ∷ t) (c ∷ u) h k = refl
text_lt_trans (a ∷ s) [] u h k = ground arith
text_lt_trans (a ∷ s) (b ∷ t) [] h k = ground arith
text_lt_trans (a ∷ s) (b ∷ t) (c ∷ u) h k = ground (arith, text_lt_trans s t u)

-- Two texts of which neither is below the other are equal.
pub text_lt-total : (s t : Text) → text_lt s t ≡ false → text_lt t s ≡ false → s ≡ t
unfolding text_lt
text_lt-total [] [] h k = refl
text_lt-total [] (b ∷ t) h k = ground arith
text_lt-total (a ∷ s) [] h k = ground arith
text_lt-total (a ∷ s) (b ∷ t) h k = ground (arith, text_lt-total s t)

-- `find_first_not_of` and `find_last_not_of` at the two ends.
unfoldable pub drop_while : (ℕ → Bool) → Text → Text
drop_while p [] = []
drop_while p (c ∷ s) = elim (p c) [ true ↦ drop_while p s | false ↦ c ∷ s ]

unfoldable pub drop_while_end : (ℕ → Bool) → Text → Text
drop_while_end p [] = []
drop_while_end p (c ∷ s) = keep (drop_while_end p s)
  where
    keep : Text → Text
    keep [] = if p c then [] else c ∷ []
    keep (d ∷ r) = c ∷ d ∷ r

-- The rest of `s` behind `pat`, if `s` starts with it.
unfoldable pub strip_prefix : Text → Text → Option Text
strip_prefix [] s = some s
strip_prefix (p ∷ pat) [] = none
strip_prefix (p ∷ pat) (c ∷ s) = elim (nat_eq p c) [ true ↦ strip_prefix pat s | false ↦ none ]

abbrev pub starts_with : Text → Text → Bool
starts_with s pat = elim (strip_prefix pat s) [ some _ ↦ true | none ↦ false ]

-- `s.find(pat)`: what stands before the first occurrence, and what stands behind it.
unfoldable pub split_on : Text → Text → Option (Text × Text)
split_on pat [] = elim (strip_prefix pat []) [ some rest ↦ some ([], rest) | none ↦ none ]
split_on pat (c ∷ s) = elim (strip_prefix pat (c ∷ s)) [
  | some rest ↦ some ([], rest)
  | none ↦ elim (split_on pat s) [ some (before, rest) ↦ some (c ∷ before, rest) | none ↦ none ]
]

-- The classes of bytes in the C locale.
unfoldable pub is_lower : ℕ → Bool
is_lower c = leb b'a' c && leb c b'z'

unfoldable pub is_upper : ℕ → Bool
is_upper c = leb b'A' c && leb c b'Z'

unfoldable pub is_alnum : ℕ → Bool
unfolding is_lower is_upper
is_alnum c = is_lower c || (is_upper c || (leb b'0' c && leb c b'9'))

unfoldable pub is_print : ℕ → Bool
is_print c = leb 32 c && leb c 126

unfoldable pub to_lower : ℕ → ℕ
unfolding is_upper
to_lower c = if is_upper c then c + 32 else c

unfoldable pub to_upper : ℕ → ℕ
unfolding is_lower
to_upper c = if is_lower c then c - 32 else c
