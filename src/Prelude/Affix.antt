-- ===== src/Prelude/Affix.antt =====
-- Tests of texts and of lists of texts: `strings.HasPrefix`, `strings.TrimPrefix`,
-- `bytes.TrimSuffix`, and membership, as of `sets.String`.
use Prim.Native.Nat.{ℕ}
use mathlib.Core.Path.{◌≡◌, refl, ap}
use mathlib.Core.Bool.{Bool, true, false, ◌&&◌}
use mathlib.Core.Logic.{inl, inr}
use mathlib.Core.List.{List, [], ◌∷◌, ◌++◌}
use native.Mathlib.Omega.{arith}
use machine_controller_k0s.Prelude.Tests.{◌==◌, if◌then◌else◌, Bool-cases}
use machine_controller_k0s.Prelude.Lists.{any, IsAmong}
use machine_controller_k0s.Prelude.Decimal.{Text, text_eq, text_eq_iff}

unfoldable pub has_prefix : Text → Text → Bool
has_prefix s [] = true
has_prefix [] (p ∷ prefix) = false
has_prefix (c ∷ s) (p ∷ prefix) = c == p && has_prefix s prefix

-- The rest of a text after as many characters.
after_prefix : Text → Text → Text
after_prefix s [] = s
after_prefix [] (p ∷ prefix) = []
after_prefix (c ∷ s) (p ∷ prefix) = after_prefix s prefix

unfoldable pub trim_prefix : Text → Text → Text
unfolding has_prefix after_prefix
trim_prefix s prefix = if has_prefix s prefix then after_prefix s prefix else s

-- The text without its last character, if that is `c`.
unfoldable pub trim_last : ℕ → Text → Text
trim_last c [] = []
trim_last c (d ∷ []) = if d == c then [] else d ∷ []
trim_last c (d ∷ e ∷ s) = d ∷ trim_last c (e ∷ s)

unfoldable pub has_text : Text → List Text → Bool
unfolding text_eq
has_text t l = any (λ u. text_eq t u) l

after_prefix_lem :
    (s prefix : Text) → has_prefix s prefix ≡ true → s ≡ prefix ++ after_prefix s prefix
unfolding has_prefix after_prefix
after_prefix_lem s [] h = refl
after_prefix_lem [] (p ∷ prefix) h = ground (arith, h)
after_prefix_lem (c ∷ s) (p ∷ prefix) h = ground (arith, after_prefix_lem s prefix)

pub trim_prefix_lem :
    (s prefix : Text) → has_prefix s prefix ≡ true → s ≡ prefix ++ trim_prefix s prefix
unfolding trim_prefix
trim_prefix_lem s prefix h = ground (arith, after_prefix_lem s prefix h)

pub trim_last_append : (s : Text) (c : ℕ) → trim_last c (s ++ c ∷ []) ≡ s
unfolding trim_last
trim_last_append [] c = ground arith
trim_last_append (d ∷ []) c = ground arith
trim_last_append (d ∷ e ∷ s) c = ap (λ (t : Text). d ∷ t) (trim_last_append (e ∷ s) c)

pub has_text-IsAmong : (t : Text) (l : List Text) → has_text t l ≡ true → IsAmong t l
unfolding has_text
has_text-IsAmong t [] h = ground (arith, h)
has_text-IsAmong t (u ∷ l) h = elim (Bool-cases (text_eq t u)) [
  | inl same ↦ inl ((text_eq_iff t u).0 same)
  | inr differs ↦ inr (has_text-IsAmong t l (ground (arith, h, differs)))
]

pub has_text_of_IsAmong : (t : Text) (l : List Text) → IsAmong t l → has_text t l ≡ true
unfolding has_text
has_text_of_IsAmong t [] h = absurd h
has_text_of_IsAmong t (u ∷ l) (inl same) = ground (arith, (text_eq_iff t u).1 same)
has_text_of_IsAmong t (u ∷ l) (inr later) = ground (arith, has_text_of_IsAmong t l later)

pub has_prefix-append : (prefix s : Text) → has_prefix (prefix ++ s) prefix ≡ true
unfolding has_prefix
has_prefix-append [] s = refl
has_prefix-append (p ∷ prefix) s = ground (arith, has_prefix-append prefix s)

after_prefix-append : (prefix s : Text) → after_prefix (prefix ++ s) prefix ≡ s
unfolding after_prefix
after_prefix-append [] s = refl
after_prefix-append (p ∷ prefix) s = after_prefix-append prefix s

pub trim_prefix-append : (prefix s : Text) → trim_prefix (prefix ++ s) prefix ≡ s
unfolding trim_prefix
trim_prefix-append prefix s = rw (has_prefix-append prefix s) (after_prefix-append prefix s)
