-- ===== src/Deployment/Find/Split.antt =====
-- The new machine set and the old ones: pkg/controller/machinedeployment/util/util.go.
use machine_controller_k0s.Prelude.{
  ◌≡◌, refl, List, [], ◌∷◌, Option, none, some, Bool, true, false, not, arith, keep_if, All-sort,
  sort-perm, find, if◌then◌else◌, inl, inr, Bool-cases, All,
}
use machine_controller_k0s.Prelude.Int.{ℤ, pos, eq_ℤ}
use machine_controller_k0s.Api.{ok, Result-cases}
use machine_controller_k0s.Objects.{MachineSet, MachineDeployment}
use machine_controller_k0s.Externals.{Externals}
use mathlib.Core.List.{Perm}
use machine_controller_k0s.Deployment.Find.{
  older, is_the_new, split_old, equal_ignore_hash, find_new_machine_set, find_old_machine_sets,
}

abbrev pub wants_machines : MachineSet → Bool
wants_machines ms = elim ms.spec_replicas [ none ↦ false | some n ↦ not (eq_ℤ n (pos 0)) ]

split_old-keep_if :
    (new_ms : Option MachineSet) (mss wanted all : List MachineSet)
    → split_old new_ms mss ≡ ok (wanted, all)
    → (all ≡ keep_if (λ ms. not (is_the_new new_ms ms)) mss) × (wanted ≡ keep_if wants_machines all)
unfolding split_old
split_old-keep_if new_ms [] wanted all h = ground (arith, h)
split_old-keep_if new_ms (ms ∷ rest) wanted all h = elim (Result-cases (split_old new_ms rest)) [
  | inl ((w, a), e) ↦ ground (arith, h, e, split_old-keep_if new_ms rest w a e)
  | inr (why, e) ↦ ground (arith, h, e)
]

abbrev pub HasCount : MachineSet → Type 0
HasCount ms = (n : ℤ) × (ms.spec_replicas ≡ some n)

split_old_returns :
    (new_ms : Option MachineSet) (mss : List MachineSet)
    → All HasCount mss
    → (r : List MachineSet × List MachineSet) × (split_old new_ms mss ≡ ok r)
unfolding split_old
split_old_returns new_ms [] h = (([], []), refl)
split_old_returns new_ms (ms ∷ rest) ((n, en), h) =
    let (r, e) = split_old_returns new_ms rest h in
    elim (Bool-cases (is_the_new new_ms ms)) [
      | inl same ↦ (r, ground (arith, same, e))
      | inr differs ↦
          ((if eq_ℤ n (pos 0) then r.0 else ms ∷ r.0, ms ∷ r.1), ground (arith, differs, en, e))
    ]

-- What the tests of a search say of its result.
abbrev pub IsFirst : {A : Type 0} → (A → Bool) → List A → Option A → Type 0
IsFirst p xs none = All (λ y. p y ≡ false) xs
IsFirst p xs (some y) = p y ≡ true

find-IsFirst : {A : Type 0} (p : A → Bool) (xs : List A) → IsFirst p xs (find p xs)
find-IsFirst p [] = tt
find-IsFirst p (y ∷ ys) = go (p y) refl (find p ys) (find-IsFirst p ys)
  where
    go :
        (b : Bool)
        → p y ≡ b
        → (o : Option _) → IsFirst p ys o
        → IsFirst p (y ∷ ys) (if b then some y else o)
    go true e o h = e
    go false e none h = (e, h)
    go false e (some z) h = h

module _ (x : Externals) where
  -- Where all sets have a size, the search returns: the new machine set, if there is one, has the
  -- template of the deployment, and if there is none, no set has it; the old sets are all the sets
  -- but the new one, sorted, and the first list is those of them that want machines.
  pub find_old_machine_sets_lem :
      (d : MachineDeployment) (mss : List MachineSet)
      → All HasCount mss
      → IsFirst
          (λ ms. equal_ignore_hash x ms.template d.template)
          (find_new_machine_set x d mss).1
          (find_new_machine_set x d mss).0
        × Perm (find_new_machine_set x d mss).1 mss
        × ((wanted : List MachineSet) × (all : List MachineSet) × (find_old_machine_sets x d mss
              ≡ ok (wanted, all))
            × (all
                ≡ keep_if
                    (λ ms. not (is_the_new (find_new_machine_set x d mss).0 ms))
                    (find_new_machine_set x d mss).1)
            × (wanted ≡ keep_if wants_machines all))
  unfolding find_old_machine_sets find_new_machine_set
  find_old_machine_sets_lem d mss h =
      let new_ms = (find_new_machine_set x d mss).0 in
      let sorted = (find_new_machine_set x d mss).1 in
      let ((wanted, all), e) = split_old_returns new_ms sorted (All-sort older HasCount mss h) in
      let (ea, ew) = split_old-keep_if new_ms sorted wanted all e in
      (
        find-IsFirst (λ ms. equal_ignore_hash x ms.template d.template) sorted,
        sort-perm older mss,
        (wanted, all, e, ea, ew),
      )
