-- ===== src/MachineSets/Replicas/Claim.antt =====
-- The machines that a set works with: the loop of `reconcile` in
-- pkg/controller/machineset/machineset_controller.go.
use machine_controller_k0s.Prelude.{
  ◌≡◌, inl, inr, List, [], ◌∷◌, none, true, false, arith, All, Bool-cases, Option-cases,
}
use machine_controller_k0s.Api.{Api}
use machine_controller_k0s.Objects.{MachineSet, Machine}
use machine_controller_k0s.Externals.{Externals}
use machine_controller_k0s.MachineSets.Requests.{Request}
use machine_controller_k0s.MachineSets.DeletePolicy.{Priorities}
use machine_controller_k0s.MachineSets.Replicas.{
  Surroundings, has_matching_labels, should_exclude_machine, has_controller, adopt_orphan,
  claim_machines,
}

module _ (x : Externals) (w : Surroundings) (f : Priorities) where
  -- A machine that the set may count: its labels match, and it is not being deleted.
  abbrev pub IsClaimable : MachineSet → Machine → Type 0
  IsClaimable ms m = (has_matching_labels x w f ms m ≡ true) × (m.deletion_timestamp ≡ none)

  kept-IsClaimable :
      (ms : MachineSet) (m : Machine) → should_exclude_machine x w f ms m ≡ false → IsClaimable ms m
  unfolding should_exclude_machine
  kept-IsClaimable ms m h = ground (arith, h)

  adopted-IsClaimable :
      (ms : MachineSet) (m : Machine) (s : Api Request)
      → IsClaimable ms m
      → IsClaimable ms (adopt_orphan x w f ms m s).0.1
  unfolding adopt_orphan has_matching_labels
  adopted-IsClaimable ms m s h = h

  -- Every machine that a reconciliation works with matches the selector of the set and is not being
  -- deleted, whether it had a controller or was adopted, and whatever the server answered.
  pub claim_machines-IsClaimable :
      (ms : MachineSet) (machines : List Machine) (s : Api Request)
      → All (IsClaimable ms) (claim_machines x w f ms machines s).0
  unfolding claim_machines
  claim_machines-IsClaimable ms [] s = tt
  claim_machines-IsClaimable ms (m ∷ rest) s =
      elim (Bool-cases (should_exclude_machine x w f ms m)) [
        | inl out ↦ rw out (claim_machines-IsClaimable ms rest s)
        | inr keep ↦ elim (Bool-cases (has_controller x w f m)) [
          | inl owned ↦
              rw (keep, owned) (kept-IsClaimable ms m keep, claim_machines-IsClaimable ms rest s)
          | inr orphan ↦ elim (Option-cases (adopt_orphan x w f ms m s).0.0) [
            | inl e ↦
                rw (keep, orphan, e)
                  (
                    adopted-IsClaimable ms m s (kept-IsClaimable ms m keep),
                    claim_machines-IsClaimable ms rest (adopt_orphan x w f ms m s).1,
                  )
            | inr (why, e) ↦
                rw (keep, orphan, e)
                  (claim_machines-IsClaimable ms rest (adopt_orphan x w f ms m s).1)
          ]
        ]
      ]
