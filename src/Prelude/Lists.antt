-- ===== src/Prelude/Lists.antt =====
-- Lists over the native numbers, with Boolean tests.
use Prim.Native.Nat.{ℕ, zero, suc, ◌+◌, ◌≤◌}
use mathlib.Core.Path.{◌≡◌, refl, ap}
use mathlib.Core.Bool.{Bool, true, false, ◌||◌}
use mathlib.Core.Logic.{◌⊎◌, inl, inr}
use mathlib.Core.Option.{Option, none, some}
use mathlib.Core.List.{List, [], ◌∷◌, ◌++◌, map}
use native.Mathlib.Omega.{arith}
use machine_controller_k0s.Prelude.Tests.{if◌then◌else◌, Bool-cases}

module _ {ℓ} {A : Type ℓ} where
  abbrev pub length : List A → ℕ
  length [] = 0
  length (x ∷ xs) = suc (length xs)

  abbrev pub take : ℕ → List A → List A
  take zero xs = []
  take (suc n) [] = []
  take (suc n) (x ∷ xs) = x ∷ take n xs

  abbrev pub All {κ} : (A → Type κ) → List A → Type κ
  All P [] = Unit
  All P (x ∷ xs) = P x × All P xs

  abbrev pub drop : ℕ → List A → List A
  drop zero xs = xs
  drop (suc n) [] = []
  drop (suc n) (x ∷ xs) = drop n xs

  -- The elements that pass the test, in order.
  abbrev pub keep_if : (A → Bool) → List A → List A
  keep_if p [] = []
  keep_if p (x ∷ xs) = let rest = keep_if p xs in if p x then x ∷ rest else rest

  abbrev pub any : (A → Bool) → List A → Bool
  any p [] = false
  any p (x ∷ xs) = p x || any p xs

  abbrev pub find : (A → Bool) → List A → Option A
  find p [] = none
  find p (x ∷ xs) = let rest = find p xs in if p x then some x else rest

  abbrev pub sum_of : (A → ℕ) → List A → ℕ
  sum_of f [] = 0
  sum_of f (x ∷ xs) = f x + sum_of f xs

  pub length-append : (xs ys : List A) → length (xs ++ ys) ≡ length xs + length ys
  length-append [] ys = omega arith
  length-append (x ∷ xs) ys = omega (arith, length-append xs ys)

  pub length-keep_if-le : (p : A → Bool) (xs : List A) → length (keep_if p xs) ≤ length xs
  length-keep_if-le p [] = omega arith
  length-keep_if-le p (x ∷ xs) = ground (arith, length-keep_if-le p xs)

  pub sum_of-append : (f : A → ℕ) (xs ys : List A) → sum_of f (xs ++ ys) ≡ sum_of f xs + sum_of f ys
  sum_of-append f [] ys = omega arith
  sum_of-append f (x ∷ xs) ys = omega (arith, sum_of-append f xs ys)

  pub All-append {κ} : (P : A → Type κ) (xs ys : List A) → All P xs → All P ys → All P (xs ++ ys)
  All-append P [] ys h k = k
  All-append P (x ∷ xs) ys h k = (h.0, All-append P xs ys h.1 k)

  pub All-keep_if : (p : A → Bool) (xs : List A) → All (λ x. p x ≡ true) (keep_if p xs)
  All-keep_if p [] = tt
  All-keep_if p (x ∷ xs) = ground (arith, All-keep_if p xs)

  pub All-imp {κ μ} :
      (P : A → Type κ) (Q : A → Type μ)
      → ((x : A) → P x → Q x)
      → (xs : List A) → All P xs
      → All Q xs
  All-imp P Q f [] h = tt
  All-imp P Q f (x ∷ xs) h = (f x h.0, All-imp P Q f xs h.1)

  pub All-drop {κ} : (P : A → Type κ) (n : ℕ) (xs : List A) → All P xs → All P (drop n xs)
  All-drop P zero xs h = h
  All-drop P (suc n) [] h = h
  All-drop P (suc n) (x ∷ xs) h = All-drop P n xs h.1

  pub append_take-drop : (n : ℕ) (xs : List A) → take n xs ++ drop n xs ≡ xs
  append_take-drop zero xs = refl
  append_take-drop (suc n) [] = refl
  append_take-drop (suc n) (x ∷ xs) = rw (append_take-drop n xs) refl

  pub length-take : (n : ℕ) (xs : List A) → n ≤ length xs → length (take n xs) ≡ n
  length-take zero xs h = refl
  length-take (suc n) [] h = omega arith
  length-take (suc n) (x ∷ xs) h = omega (arith, length-take n xs (omega arith))

  pub append_nil : (xs : List A) → xs ++ [] ≡ xs
  append_nil [] = refl
  append_nil (x ∷ xs) = rw (append_nil xs) refl

  pub All-intro {κ} : (P : A → Type κ) → ((x : A) → P x) → (xs : List A) → All P xs
  All-intro P f [] = tt
  All-intro P f (x ∷ xs) = (f x, All-intro P f xs)

module _ {A : Type 0} where
  abbrev pub IsAmong : A → List A → Type 0
  IsAmong x [] = ⊥
  IsAmong x (y ∷ ys) = (x ≡ y) ⊎ IsAmong x ys

  pub any-IsAmong :
      (p : A → Bool) (xs : List A) → any p xs ≡ true → (x : A) × IsAmong x xs × (p x ≡ true)
  any-IsAmong p [] h = ground (arith, h)
  any-IsAmong p (x ∷ xs) h = elim (Bool-cases (p x)) [
    | inl passes ↦ (x, inl refl, passes)
    | inr fails ↦
        let (y, among, passes) = any-IsAmong p xs (ground (arith, h, fails)) in
        (y, inr among, passes)
  ]

  pub any_of_IsAmong :
      (p : A → Bool) (x : A) (xs : List A) → IsAmong x xs → p x ≡ true → any p xs ≡ true
  any_of_IsAmong p x [] h passes = absurd h
  any_of_IsAmong p x (y ∷ xs) (inl same) passes = ground (arith, same, passes)
  any_of_IsAmong p x (y ∷ xs) (inr later) passes =
      ground (arith, any_of_IsAmong p x xs later passes)

  pub append-IsAmong-front : (x : A) (xs ys : List A) → IsAmong x xs → IsAmong x (xs ++ ys)
  append-IsAmong-front x [] ys h = absurd h
  append-IsAmong-front x (y ∷ xs) ys (inl same) = inl same
  append-IsAmong-front x (y ∷ xs) ys (inr later) = inr (append-IsAmong-front x xs ys later)

  pub append-IsAmong-back : (x : A) (xs ys : List A) → IsAmong x ys → IsAmong x (xs ++ ys)
  append-IsAmong-back x [] ys h = h
  append-IsAmong-back x (y ∷ xs) ys h = inr (append-IsAmong-back x xs ys h)

  pub All-replace :
      (P : A → Type 0) {w w' : A}
      → (P w → P w')
      → (before after : List A) → All P (before ++ w ∷ after)
      → All P (before ++ w' ∷ after)
  All-replace P f [] after (h, rest) = (f h, rest)
  All-replace P f (v ∷ before) after (h, rest) = (h, All-replace P f before after rest)

  pub All-middle :
      (P : A → Type 0) {w : A} (before after : List A) → All P (before ++ w ∷ after) → P w
  All-middle P [] after h = h.0
  All-middle P (v ∷ before) after h = All-middle P before after h.1

module _ {A B : Type 0} (f : A → B) where
  pub map-replace :
      {w w' : A}
      → f w ≡ f w'
      → (before after : List A) → map f (before ++ w ∷ after) ≡ map f (before ++ w' ∷ after)
  map-replace e [] after = ap (λ b. b ∷ map f after) e
  map-replace e (v ∷ before) after = ap (λ l. f v ∷ l) (map-replace e before after)

  pub map-IsAmong : (w : A) (before after : List A) → IsAmong (f w) (map f (before ++ w ∷ after))
  map-IsAmong w [] after = inl refl
  map-IsAmong w (v ∷ before) after = inr (map-IsAmong w before after)
