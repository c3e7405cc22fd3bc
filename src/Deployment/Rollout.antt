-- ===== src/Deployment/Rollout.antt =====
-- A rollout as the composition of its steps: rolloutRolling of
-- pkg/controller/machinedeployment/rolling.go.
use machine_controller_k0s.Prelude.{List, Option, none, some, true, false}
use machine_controller_k0s.Api.{Error, ok, err}
use machine_controller_k0s.Objects.{MachineSet}
use machine_controller_k0s.Externals.{Externals}
use machine_controller_k0s.Deployment.Fenceposts.{deployment_complete}
use machine_controller_k0s.Deployment.Status.{sync_deployment_status}
use machine_controller_k0s.Deployment.Rolling.{
  Rollout, Step, all_mss, reconcile_new_machine_set, reconcile_old_machine_sets,
}
use machine_controller_k0s.Deployment.Cleanup.{cleanup_deployment}
use machine_controller_k0s.Deployment.NewSet.{
  Deploying, Client, get_all_machine_sets_and_sync_revision,
}

-- One step after another, up to an error.
abbrev then_step : Step → (Rollout → Step) → Step
then_step (some e, p) f = (some e, p)
then_step (none, p) f = f p

unfoldable pub sync_status : Rollout → Step
unfolding sync_deployment_status
sync_status p =
    let r = sync_deployment_status (all_mss p) (some p.new_ms) p.deployment p.server in
    (r.error, record p { deployment = r.deployment; server = r.server })

unfoldable pub cleanup_complete : Rollout → Step
unfolding deployment_complete cleanup_deployment
cleanup_complete p = elim (deployment_complete p.deployment p.deployment.status) [
  | err e ↦ (some e, p)
  | ok false ↦ (none, p)
  | ok true ↦
      let (e, server) = cleanup_deployment p.old_mss p.deployment p.server in
      (e, record p { server = server })
]

module _ (x : Externals) where
  -- The steps once the new machine set is known.
  unfoldable pub roll_out : Rollout → Step
  unfolding reconcile_new_machine_set reconcile_old_machine_sets sync_status cleanup_complete
  roll_out p =
      then_step
        (then_step
          (then_step (then_step (reconcile_new_machine_set x p) sync_status)
            (λ q. reconcile_old_machine_sets x q))
          sync_status)
        cleanup_complete

  unfoldable pub rollout_rolling : Client → List MachineSet → Deploying → Option Error × Deploying
  unfolding get_all_machine_sets_and_sync_revision roll_out
  rollout_rolling c ms_list s =
      let (found, s') = get_all_machine_sets_and_sync_revision x c true ms_list s in
      elim found [
        | err e ↦ (some e, s')
        | ok (none, old_mss) ↦ (none, s')
        | ok (some new_ms, old_mss) ↦
            let (e, p) = roll_out (record {
              deployment = s'.deployment;
              new_ms = new_ms;
              old_mss = old_mss;
              server = s'.server;
            }) in
            (e, record s' { deployment = p.deployment; server = p.server })
      ]
