-- ===== src/MachineSets/DeletePolicy/Order.antt =====
-- The machines to delete are those of the highest priority:
-- pkg/controller/machineset/delete_policy.go.
use machine_controller_k0s.Prelude.{
  ℕ, zero, suc, ◌≤◌, ◌≡◌, refl, inl, inr, List, [], ◌∷◌, ◌++◌, Bool, true, false, arith, sort,
  insert_sorted, sort-perm, length-sort, take, drop, length, All, All-imp, All-drop,
  All-insert_sorted, append_take-drop, length-take, append_nil, All-intro, leb, ◌==◌, if◌then◌else◌,
  Bool-cases,
}
use machine_controller_k0s.Prelude.Int.{pos}
use machine_controller_k0s.Objects.{Machine}
use mathlib.Core.Path.{subst}
use mathlib.Core.List.{Perm}
use mathlib.Core.List.Perm
use machine_controller_k0s.MachineSets.DeletePolicy.{
  Priorities, higher, get_machines_to_delete_prioritized,
}

module _ {ℓ} {A : Type ℓ} (less : A → A → Bool)
    (asym : (a b : A) → less a b ≡ true → less b a ≡ false)
    (trans : (a b c : A) → less a b ≡ false → less b c ≡ false → less a c ≡ false) where
  -- No later element comes before an earlier one.
  abbrev IsSorted : List A → Type 0
  IsSorted [] = Unit
  IsSorted (a ∷ rest) = All (λ b. less b a ≡ false) rest × IsSorted rest

  insert_sorted-IsSorted : (x : A) (xs : List A) → IsSorted xs → IsSorted (insert_sorted less x xs)
  unfolding insert_sorted
  insert_sorted-IsSorted x [] h = (tt, tt)
  insert_sorted-IsSorted x (y ∷ ys) h = elim (Bool-cases (less y x)) [
    | inl e ↦ rw e (
      All-insert_sorted less (λ b. less b y ≡ false) x ys (asym y x e) h.0,
      insert_sorted-IsSorted x ys h.1,
    )
    | inr e ↦ rw e (
      (e, All-imp (λ b. less b y ≡ false) (λ b. less b x ≡ false) (λ b k. trans b y x k e) ys h.0),
      h,
    )
  ]

  sort-IsSorted : (xs : List A) → IsSorted (sort less xs)
  unfolding sort
  sort-IsSorted [] = tt
  sort-IsSorted (x ∷ xs) = insert_sorted-IsSorted x (sort less xs) (sort-IsSorted xs)

  -- The first elements of a sorted list against the others.
  take-before-drop :
      (n : ℕ) (xs : List A)
      → IsSorted xs
      → All (λ a. All (λ b. less b a ≡ false) (drop n xs)) (take n xs)
  take-before-drop zero xs h = tt
  take-before-drop (suc n) [] h = tt
  take-before-drop (suc n) (x ∷ xs) h =
      (All-drop (λ b. less b x ≡ false) n xs h.0, take-before-drop n xs h.1)

module _ (f : Priorities) (priority : Machine → f.Priority) where
  -- The machines split into the chosen ones and others, and no chosen one has a lower priority
  -- than another.
  abbrev pub IsChoice : ℕ → List Machine → List Machine → Type 0
  IsChoice count machines chosen =
      (length chosen ≡ count)
      × ((kept : List Machine) × Perm (chosen ++ kept) machines
          × All (λ a. All (λ b. f.below (priority a) (priority b) ≡ false) kept) chosen)

  all-IsChoice : (machines : List Machine) → IsChoice (length machines) machines machines
  all-IsChoice machines = (
    refl,
    (
      [],
      rw (append_nil machines) (Perm.refl machines),
      All-intro (λ a. All (λ b. f.below (priority a) (priority b) ≡ false) []) (λ a. tt) machines,
    ),
  )

  asym : (a b : Machine) → higher f priority a b ≡ true → higher f priority b a ≡ false
  unfolding higher
  asym a b h = f.below_asym (priority b) (priority a) h

  trans :
      (a b c : Machine)
      → higher f priority a b ≡ false
      → higher f priority b c ≡ false
      → higher f priority a c ≡ false
  unfolding higher
  trans a b c h k = f.below_trans (priority c) (priority b) (priority a) k h

  first-IsChoice :
      (diff : ℕ) (machines : List Machine)
      → diff ≤ length machines
      → IsChoice diff machines (take diff (sort (higher f priority) machines))
  unfolding higher
  first-IsChoice diff machines h =
      let sorted = sort (higher f priority) machines in
      (
        length-take diff sorted (omega (arith, length-sort (higher f priority) machines)),
        (
          drop diff sorted,
          rw (append_take-drop diff sorted) (sort-perm (higher f priority) machines),
          take-before-drop (higher f priority) asym trans diff sorted
              (sort-IsSorted (higher f priority) asym trans machines),
        ),
      )

  none_or_first : (n : ℕ) (xs : List Machine) → (if n == 0 then [] else take n xs) ≡ take n xs
  none_or_first zero xs = refl
  none_or_first (suc n) xs = ground arith

  -- Of the machines, as many as asked for are chosen, all if more are asked for, and those of the
  -- highest priority.
  pub get_machines_to_delete_prioritized-IsChoice :
      (machines : List Machine) (diff : ℕ)
      → IsChoice
          (if leb (length machines) diff then length machines else diff)
          machines
          (get_machines_to_delete_prioritized f machines (pos diff) priority)
  unfolding get_machines_to_delete_prioritized
  get_machines_to_delete_prioritized-IsChoice machines diff =
      elim (Bool-cases (leb (length machines) diff)) [
        | inl all ↦ rw all (all-IsChoice machines)
        | inr few ↦
            rw (few, none_or_first diff (sort (higher f priority) machines))
              (first-IsChoice diff machines (ground arith))
      ]

  count_of_choice : (l diff : ℕ) → diff ≤ l → (if leb l diff then l else diff) ≡ diff
  count_of_choice l diff h = ground arith

  pub chosen-IsChoice :
      (machines : List Machine) (diff : ℕ)
      → diff ≤ length machines
      → IsChoice diff machines (get_machines_to_delete_prioritized f machines (pos diff) priority)
  chosen-IsChoice machines diff h =
      subst
        (λ c.
          IsChoice c machines (get_machines_to_delete_prioritized f machines (pos diff) priority))
        (count_of_choice (length machines) diff h)
        (get_machines_to_delete_prioritized-IsChoice machines diff)
