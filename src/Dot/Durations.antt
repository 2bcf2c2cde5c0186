-- ===== src/Dot/Durations.antt =====
-- Bounds of the durations that src/dot_parser.cpp reads.
use attractor.Prelude.{
  ℕ, ◌*◌, ◌≤◌, ◌≡◌, refl, sym, subst, Bool, true, All, Option, none, some, [], ◌∷◌, ◌++◌, Text,
  text, ◌==◌, nat_eq, is_empty, take_while, drop_while, if-cases, Bool-cases, inl, inr,
  if◌then◌else◌, arith,
}
use attractor.Dot.Lexer.{is_digit}
use attractor.Dot.Values.{
  digits_value, long_max, read_digits, unit_factor, scaled, duration_of, parse_duration,
}

-- A byte from 0 to 9.
abbrev pub IsDigit : ℕ → Type 0
IsDigit c = (b'0' ≤ c) × (c ≤ b'9')

-- What a duration is: digits and the name of a unit, with the milliseconds of the unit, at least
-- one and no more than a `long long` holds.
pub record IsDuration (s : Text) (ms : ℕ) : Type 0 where
  pub digits : Text
  pub suffix : Text
  pub factor : ℕ
  pub decimal : All IsDigit digits
  pub split : s ≡ digits ++ suffix
  pub factor_of : unit_factor suffix ≡ some factor
  pub value : ms ≡ digits_value 0 digits * factor
  pub at_least : 1 ≤ ms
  pub at_most : ms ≤ long_max

take_while-drop_while : (p : ℕ → Bool) (s : Text) → s ≡ take_while p s ++ drop_while p s
unfolding take_while drop_while
take_while-drop_while p [] = refl
take_while-drop_while p (c ∷ s) = ground (arith, take_while-drop_while p s)

is_digit-IsDigit : (c : ℕ) → is_digit c ≡ true → IsDigit c
unfolding is_digit
is_digit-IsDigit c h = (ground arith, ground arith)

digits-IsDigit : (s : Text) → All IsDigit (take_while is_digit s)
unfolding take_while
digits-IsDigit [] = tt
digits-IsDigit (c ∷ s) = elim (Bool-cases (is_digit c)) [
  | inl e ↦ rw (e, take_while) (is_digit-IsDigit c e, digits-IsDigit s)
  | inr e ↦ rw (e, take_while) tt
]

read_digits-value :
    (greatest : ℕ) (s : Text) (n : ℕ) → read_digits greatest s ≡ some n → n ≡ digits_value 0 s
unfolding read_digits
read_digits-value greatest s n h = ground arith

-- What holds of a product by the factor of a unit.
abbrev Scales : ℕ → ℕ → Option ℕ → Type 0
Scales n ms o =
    scaled n o ≡ some ms
    → 1 ≤ n
    → (factor : ℕ) × (o ≡ some factor) × (ms ≡ n * factor) × (1 ≤ ms) × (ms ≤ long_max)

unit-Scales : (n ms : ℕ) (suffix : Text) → Scales n ms (unit_factor suffix)
unfolding scaled unit_factor
unit-Scales n ms suffix =
    let P = Scales n ms in
    if-cases P (suffix == text "ms") _ _
      (λ e h k. (1, refl, ground arith, ground arith, ground arith))
      (λ e.
        if-cases P (suffix == text "s") _ _
          (λ e h k. (1000, refl, ground arith, ground arith, ground arith))
          (λ e.
            if-cases P (suffix == text "m") _ _
              (λ e h k. (60000, refl, ground arith, ground arith, ground arith))
              (λ e.
                if-cases P (suffix == text "h") _ _
                  (λ e h k. (3600000, refl, ground arith, ground arith, ground arith))
                  (λ e.
                    if-cases P (suffix == text "d") _ _
                      (λ e h k. (86400000, refl, ground arith, ground arith, ground arith))
                      (λ e h k. absurd (cc))))))

duration_of-IsDuration :
    (digits suffix : Text) (ms : ℕ)
    → All IsDigit digits
    → duration_of (read_digits long_max digits) suffix ≡ some ms
    → IsDuration (digits ++ suffix) ms
unfolding duration_of
duration_of-IsDuration digits suffix ms d h =
    read (read_digits long_max digits) (λ n e. read_digits-value long_max digits n e) h
  where
    positive :
        (n : ℕ)
        → (if nat_eq n 0 then none else scaled n (unit_factor suffix)) ≡ some ms
        → (scaled n (unit_factor suffix) ≡ some ms) × (1 ≤ n)
    positive n k = (ground arith, ground arith)

    read :
        (o : Option ℕ)
        → ((n : ℕ) → o ≡ some n → n ≡ digits_value 0 digits)
        → duration_of o suffix ≡ some ms
        → IsDuration (digits ++ suffix) ms
    read none v k = absurd (cc)
    read (some n) v k =
        let q = positive n k in
        let u = unit-Scales n ms suffix q.0 q.1 in
        record {
          digits = digits;
          suffix = suffix;
          factor = u.0;
          decimal = d;
          split = refl;
          factor_of = u.1;
          value = subst (λ (d : ℕ). ms ≡ d * u.0) (v n refl) u.2;
          at_least = u.3;
          at_most = u.4;
        }

-- What parse_duration reads is digits from 0 to 9 and the name of a unit; it is their product in milliseconds,
-- is not 0 and fits a `long long`, so that the multiplication does not overflow.
pub parse_duration-IsDuration : (s : Text) (ms : ℕ) → parse_duration s ≡ some ms → IsDuration s ms
unfolding parse_duration
parse_duration-IsDuration s ms h = elim (Bool-cases (is_empty (drop_while is_digit s))) [
  | inl e ↦ absurd (ground arith)
  | inr e ↦
      subst (λ t. IsDuration t ms) (sym (take_while-drop_while is_digit s))
        (duration_of-IsDuration (take_while is_digit s) (drop_while is_digit s) ms
          (digits-IsDigit s) (ground arith))
]
