-- ===== src/Prelude/Decimal.antt =====
-- Texts as lists of code points, and the decimal forms of `fmt.Sprintf("%d", n)`,
-- `strconv.FormatInt`, `strconv.Atoi` and `strconv.ParseInt`.
use Prim.Native.Nat.{ℕ, zero, suc, ◌+◌, ◌-◌, ◌*◌, ◌/◌, ◌%◌, ◌≤◌, ◌<◌}
use Prim.Native.Char.{code}
use Prim.Native.String.{String}
use mathlib.Core.Path.{◌≡◌, refl, ap, ◌∙◌}
use mathlib.Core.Bool.{Bool, true, false, ◌&&◌, ◌||◌}
use mathlib.Core.Logic.{◌↔◌, inl, inr}
use mathlib.Core.Option.{Option, none, some}
use mathlib.Core.List.{List, [], ◌∷◌}
use native.Mathlib.Omega.{arith}
use machine_controller_k0s.Prelude.Tests.{ltb, leb, ◌==◌, if◌then◌else◌, Bool-cases}
use machine_controller_k0s.Prelude.Int.{ℤ, pos, negsuc, pos_part, neg_part}

abbrev pub Text : Type 0
Text = List ℕ

abbrev pub codes : String → Text
codes String.[] = []
codes (String.◌∷◌ c s) = code c ∷ codes s

unfoldable pub text_eq : Text → Text → Bool
text_eq [] [] = true
text_eq [] (d ∷ t) = false
text_eq (c ∷ s) [] = false
text_eq (c ∷ s) (d ∷ t) = c == d && text_eq s t

-- The order of Go's `<` on strings.
unfoldable pub text_lt : Text → Text → Bool
text_lt s [] = false
text_lt [] (d ∷ t) = true
text_lt (c ∷ s) (d ∷ t) = ltb c d || (c == d && text_lt s t)

pub text_eq_iff : (s t : Text) → (text_eq s t ≡ true) ↔ (s ≡ t)
unfolding text_eq
text_eq_iff [] [] = ground arith
text_eq_iff [] (d ∷ t) = ground arith
text_eq_iff (c ∷ s) [] = ground arith
text_eq_iff (c ∷ s) (d ∷ t) = ground (arith, text_eq_iff s t)

pub text_eq_refl : (s : Text) → text_eq s s ≡ true
text_eq_refl s = (text_eq_iff s s).1 refl

abbrev is_digit : ℕ → Bool
is_digit c = leb b'0' c && leb c b'9'

-- The digits of `n` in front of `acc`; fuel above `n` is enough.
digits_onto : ℕ → ℕ → Text → Text
digits_onto zero n acc = acc
digits_onto (suc f) n acc =
    let rest = digits_onto f (n / 10) ((n % 10 + 48) ∷ acc) in
    if ltb n 10 then (n + 48) ∷ acc else rest

unfoldable pub format_int : ℤ → Text
unfolding digits_onto
format_int (pos n) = digits_onto (suc n) n []
format_int (negsuc n) = b'-' ∷ digits_onto (suc (suc n)) (suc n) []

digits_value : ℕ → Text → Option ℕ
digits_value acc [] = some acc
digits_value acc (c ∷ s) =
    let rest = digits_value (acc * 10 + (c - 48)) s in if is_digit c then rest else none

-- At least one digit.
unsigned_value : Text → Option ℕ
unsigned_value [] = none
unsigned_value (c ∷ s) = digits_value 0 (c ∷ s)

-- A value outside of `int64` is an error.
abbrev as_pos : Option ℕ → Option ℤ
as_pos none = none
as_pos (some n) = if ltb n 9223372036854775808 then some (pos n) else none

abbrev as_neg : Option ℕ → Option ℤ
as_neg none = none
as_neg (some zero) = some (pos 0)
as_neg (some (suc n)) = if ltb n 9223372036854775808 then some (negsuc n) else none

unfoldable pub parse_int : Text → Option ℤ
unfolding unsigned_value digits_value
parse_int [] = none
parse_int (c ∷ s) =
    if c == b'-'
    then as_neg (unsigned_value s)
    else if c == b'+'
    then as_pos (unsigned_value s)
    else as_pos (unsigned_value (c ∷ s))

StartsWithDigit : Text → Type 0
StartsWithDigit [] = ⊥
StartsWithDigit (c ∷ s) = (48 ≤ c) × (c ≤ 57)

div_step : (n : ℕ) → n / 10 * 10 + (n % 10 + 48 - 48) ≡ n
div_step n = omega arith

digits_value-digits_onto :
    (f n : ℕ) (acc : Text) → n < f → digits_value 0 (digits_onto f n acc) ≡ digits_value n acc
unfolding digits_value digits_onto
digits_value-digits_onto zero n acc h = elim h [ ]
digits_value-digits_onto (suc f) n acc h = elim (Bool-cases (ltb n 10)) [
  | inl e ↦ rw e (ground arith)
  | inr e ↦ rw e (
      digits_value-digits_onto f (n / 10) ((n % 10 + 48) ∷ acc) (ground arith)
      ∙ ground (arith, ap (λ (k : ℕ). digits_value k acc) (div_step n)))
]

digits_onto-StartsWithDigit : (f n : ℕ) (acc : Text) → n < f → StartsWithDigit (digits_onto f n acc)
unfolding StartsWithDigit digits_onto
digits_onto-StartsWithDigit zero n acc h = elim h [ ]
digits_onto-StartsWithDigit (suc f) n acc h =
    ground (arith, digits_onto-StartsWithDigit f (n / 10) ((n % 10 + 48) ∷ acc))

parse_int_of_digit : (s : Text) → StartsWithDigit s → parse_int s ≡ as_pos (digits_value 0 s)
unfolding StartsWithDigit parse_int
parse_int_of_digit [] h = absurd h
parse_int_of_digit (c ∷ s) h = ground arith

unsigned_value_of_digit : (s : Text) → StartsWithDigit s → unsigned_value s ≡ digits_value 0 s
unfolding StartsWithDigit unsigned_value
unsigned_value_of_digit [] h = absurd h
unsigned_value_of_digit (c ∷ s) h = refl

format_pos : ℕ → Text
format_pos n = digits_onto (suc n) n []

value_of_format_pos : (n : ℕ) → digits_value 0 (format_pos n) ≡ some n
unfolding format_pos digits_value
value_of_format_pos n = digits_value-digits_onto (suc n) n [] (omega arith)

format_pos-StartsWithDigit : (n : ℕ) → StartsWithDigit (format_pos n)
unfolding format_pos
format_pos-StartsWithDigit n = digits_onto-StartsWithDigit (suc n) n [] (omega arith)

-- What is printed reads back, over the range of `int64`.
pub parse_int-format_int :
    (a : ℤ)
    → pos_part a < 9223372036854775808
    → neg_part a ≤ 9223372036854775808
    → parse_int (format_int a) ≡ some a
unfolding format_int format_pos parse_int
parse_int-format_int (pos n) h k =
    parse_int_of_digit (format_pos n) (format_pos-StartsWithDigit n)
    ∙ rw (value_of_format_pos n) (ground arith)
parse_int-format_int (negsuc n) h k =
    rw (unsigned_value_of_digit (format_pos (suc n)) (format_pos-StartsWithDigit (suc n)))
      (rw (value_of_format_pos (suc n)) (ground arith))

cons_of_digit : (s : Text) → StartsWithDigit s → (c : ℕ) × (rest : Text) × (s ≡ c ∷ rest)
unfolding StartsWithDigit
cons_of_digit [] h = absurd h
cons_of_digit (c ∷ s) h = (c, s, refl)

-- A printed number is not the empty text.
pub format_int-cons : (a : ℤ) → (c : ℕ) × (s : Text) × (format_int a ≡ c ∷ s)
unfolding format_int format_pos
format_int-cons (pos n) = cons_of_digit (format_pos n) (format_pos-StartsWithDigit n)
format_int-cons (negsuc n) = (b'-', format_pos (suc n), refl)
