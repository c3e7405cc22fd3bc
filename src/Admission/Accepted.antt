-- ===== src/Admission/Accepted.antt =====
-- What a machine deployment that passes the webhook is like:
-- pkg/admission/machinedeployments_validation.go.
use machine_controller_k0s.Prelude.{
  ℕ, ◌≡◌, ◌≢◌, refl, ap, ◌⊎◌, inl, inr, List, [], ◌∷◌, ◌++◌, Option, none, some, true, false, arith,
}
use mathlib.Core.Path.{subst}
use machine_controller_k0s.Prelude.Int.{ℤ, pos, negsuc}
use machine_controller_k0s.Api.{panicked, Result, ok, err, ◌>>=◌}
use machine_controller_k0s.Objects.{
  IntOrString, int_val, RollingUpdate, StrategyType, rolling, unset, other, Strategy,
  MachineDeployment,
}
use machine_controller_k0s.Externals.{Externals}
use machine_controller_k0s.Admission.{
  or_default, default_strategy, FieldError, Validators, bad_type, replicas_errors, update_errors,
  populate_defaults_machine_deployment, get_int_or_percent, validate_positive_int_or_percent,
  validate_machine_rolling_update_deployment, validate_machine_deployment_strategy,
  validate_machine_deployment_spec,
}

nil_append {ℓ} : {A : Type ℓ} (xs ys : List A) → xs ++ ys ≡ [] → (xs ≡ []) × (ys ≡ [])
nil_append [] ys h = (refl, h)
nil_append (x ∷ xs) ys h = absurd (ground (arith, h))

abbrev rolling_of : IntOrString → IntOrString → Strategy
rolling_of u s = record {
  type = rolling;
  rolling_update = some (record { max_unavailable = some u; max_surge = some s });
}

default_setting :
    (o : Option IntOrString) (d : IntOrString) → (u : IntOrString) × (or_default o d ≡ some u)
default_setting none d = (d, refl)
default_setting (some u) d = (u, refl)

typed_cases :
    (t : StrategyType) (r : Option RollingUpdate)
    → ((u : IntOrString) × (s : IntOrString) × (default_strategy
            (some (record { type = t; rolling_update = r }))
          ≡ rolling_of u s))
      ⊎ ((default_strategy (some (record { type = t; rolling_update = r }))).type ≡ other)
typed_cases other r = inr refl
typed_cases rolling none = inl (int_val (pos 0), int_val (pos 1), refl)
typed_cases unset none = inl (int_val (pos 0), int_val (pos 1), refl)
typed_cases rolling (some r) =
    let (u, eu) = default_setting r.max_unavailable (int_val (pos 0)) in
    let (s, es) = default_setting r.max_surge (int_val (pos 1)) in inl (u, s, rw (eu, es) refl)
typed_cases unset (some r) =
    let (u, eu) = default_setting r.max_unavailable (int_val (pos 0)) in
    let (s, es) = default_setting r.max_surge (int_val (pos 1)) in inl (u, s, rw (eu, es) refl)

default_strategy-cases :
    (o : Option Strategy)
    → ((u : IntOrString) × (s : IntOrString) × (default_strategy o ≡ rolling_of u s))
      ⊎ ((default_strategy o).type ≡ other)
default_strategy-cases none = inl (int_val (pos 0), int_val (pos 1), refl)
default_strategy-cases (some t) = typed_cases t.type t.rolling_update

default_replicas : (o : Option ℤ) → (n : ℤ) × (or_default o (pos 1) ≡ some n)
default_replicas none = (pos 1, refl)
default_replicas (some n) = (n, refl)

ok_empty : (l : List FieldError) → ok l ≡ ok [] → l ≡ []
ok_empty [] h = refl
ok_empty (e ∷ l) h = absurd (ground (arith, h))

-- Two lists of errors that are joined to an empty one.
both_empty :
    (r s : Result (List FieldError)) (first : List FieldError)
    → (do a ← r; b ← s; ok (first ++ a ++ b)) ≡ ok []
    → (r ≡ ok []) × (s ≡ ok [])
both_empty (ok a) (ok b) first h =
    let (all, eb) = nil_append (first ++ a) b (ok_empty (first ++ a ++ b) h) in
    let (ef, ea) = nil_append first a all in (ap (λ l. ok l) ea, ap (λ l. ok l) eb)
both_empty (ok a) (err e) first h = absurd (ground (arith, h))
both_empty (err e) s first h = absurd (ground (arith, h))

module _ (x : Externals) (v : Validators) where
  -- The count is there and not negative, and the rolling update has both settings, with values that
  -- are not negative and not both zero.
  abbrev pub IsSound : MachineDeployment → Type 0
  IsSound d =
      ((n : ℕ) × (d.spec_replicas ≡ some (pos n)))
      × ((u : IntOrString) × (s : IntOrString) × (a : ℕ) × (b : ℕ) × (d.strategy
            ≡ some (rolling_of u s))
          × (x.get_value (some u) (pos 100) false ≡ some (pos a))
          × (x.get_value (some s) (pos 100) false ≡ some (pos b))
          × ((a ≡ 0) × (x.get_value (some s) (pos 100) true ≡ some (pos 0)) → ⊥))

  -- A count that is not a number of machines is refused, and so on.
  number_not_negative :
      (s : IntOrString)
      → validate_positive_int_or_percent x v s ≡ []
      → (a : ℕ) × (x.get_value (some s) (pos 100) false ≡ some (pos a))
  unfolding validate_positive_int_or_percent get_int_or_percent
  number_not_negative s h = go (x.get_value (some s) (pos 100) false) refl
    where
      go :
          (o : Option ℤ)
          → x.get_value (some s) (pos 100) false ≡ o
          → (a : ℕ) × (x.get_value (some s) (pos 100) false ≡ some (pos a))
      go none e = absurd (ground (arith, e, h))
      go (some (pos a)) e = (a, e)
      go (some (negsuc a)) e = absurd (ground (arith, e, h))

  strategy_validated :
      (t : Strategy)
      → (errors : List FieldError) × (validate_machine_deployment_strategy x v (some t) ≡ ok errors)
  unfolding validate_machine_deployment_strategy
  strategy_validated t = go t.type refl
    where
      go :
          (k : StrategyType)
          → t.type ≡ k
          → (errors : List FieldError) × (validate_machine_deployment_strategy x v (some t)
              ≡ ok errors)
      go rolling e = (update_errors x v t.rolling_update, rw e refl)
      go unset e = (bad_type ∷ [], rw e refl)
      go other e = (bad_type ∷ [], rw e refl)

  replicas_validated : (n : ℤ) → replicas_errors x v (some n) ≡ ok [] → (m : ℕ) × (n ≡ pos m)
  replicas_validated (pos m) h = (m, refl)
  replicas_validated (negsuc m) h = absurd (ground (arith, h))

  no_errors :
      (d : MachineDeployment)
      → validate_machine_deployment_spec x v d ≡ ok []
      → (replicas_errors x v d.spec_replicas ≡ ok [])
        × (validate_machine_deployment_strategy x v d.strategy ≡ ok [])
  unfolding validate_machine_deployment_spec
  no_errors d h =
      both_empty (replicas_errors x v d.spec_replicas)
        (validate_machine_deployment_strategy x v d.strategy) _ h

  other_refused :
      (t : Strategy)
      → t.type ≡ other
      → validate_machine_deployment_strategy x v (some t) ≡ ok []
      → ⊥
  unfolding validate_machine_deployment_strategy
  other_refused t e h = ground (arith, e, h)

  rolling_sound :
      (u s : IntOrString)
      → validate_machine_rolling_update_deployment x v
          (record { max_unavailable = some u; max_surge = some s })
        ≡ []
      → (a : ℕ) × (b : ℕ) × (x.get_value (some u) (pos 100) false ≡ some (pos a))
        × (x.get_value (some s) (pos 100) false ≡ some (pos b))
        × ((a ≡ 0) × (x.get_value (some s) (pos 100) true ≡ some (pos 0)) → ⊥)
  unfolding validate_machine_rolling_update_deployment get_int_or_percent
  rolling_sound u s h =
      let (us, z) = nil_append _ _ h in
      let (ue, se) = nil_append _ _ us in
      let (u0, u1) = nil_append _ _ ue in
      let (a, ea) = number_not_negative u u0 in
      let (b, eb) = number_not_negative s se in
      (a, b, ea, eb, λ zeros. ground (arith, z, ea, zeros.0, zeros.1))

  update_sound :
      (u s : IntOrString) (d : MachineDeployment)
      → d.strategy ≡ some (rolling_of u s)
      → validate_machine_deployment_strategy x v d.strategy ≡ ok []
      → validate_machine_rolling_update_deployment x v
          (record { max_unavailable = some u; max_surge = some s })
        ≡ []
  unfolding validate_machine_deployment_strategy
  update_sound u s d e h =
      ok_empty _ (subst (λ t. validate_machine_deployment_strategy x v t ≡ ok []) e h)

  -- A deployment that the defaults are filled into and that is then accepted has a number of
  -- replicas that is not negative and a rolling update with two settings whose values are not
  -- negative and not both zero: what the controller reads of it is there.
  pub validate-IsSound :
      (d : MachineDeployment)
      → validate_machine_deployment_spec x v (populate_defaults_machine_deployment d) ≡ ok []
      → IsSound (populate_defaults_machine_deployment d)
  unfolding populate_defaults_machine_deployment
  validate-IsSound d h =
      let (n, en) = default_replicas d.spec_replicas in
      let (rs, ss) = no_errors (populate_defaults_machine_deployment d) h in
      let (m, em) = replicas_validated n (subst (λ o. replicas_errors x v o ≡ ok []) en rs) in
      elim (default_strategy-cases d.strategy) [
        | inl (u, s, e) ↦
            let (a, b, ea, eb, nz) =
              rolling_sound u s (
                update_sound u s (populate_defaults_machine_deployment d) (ap (λ t. some t) e)
                  ss) in
            ((m, rw (en, em) refl), (u, s, a, b, ap (λ t. some t) e, ea, eb, nz))
        | inr e ↦ absurd (other_refused (default_strategy d.strategy) e ss)
      ]

  -- With its defaults a deployment is validated without a panic.
  pub validate-defaulted :
      (d : MachineDeployment)
      → validate_machine_deployment_spec x v (populate_defaults_machine_deployment d) ≢ err panicked
  unfolding validate_machine_deployment_spec populate_defaults_machine_deployment
  validate-defaulted d h =
      ground
        (arith, default_replicas d.spec_replicas, strategy_validated (default_strategy d.strategy))
