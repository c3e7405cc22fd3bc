-- ===== src/Deployment/NewSet.antt =====
-- The new machine set of a deployment, found or made: getNewMachineSet,
-- getAllMachineSetsAndSyncRevision and updateMachineDeployment of
-- pkg/controller/machinedeployment/sync.go.
use machine_controller_k0s.Prelude.{
  zero, suc, ◌==◌, List, [], ◌∷◌, ◌++◌, Option, none, some, Bool, true, false, not, ◌&&◌, ◌||◌, any,
  if◌then◌else◌, String, str_eq,
}
use machine_controller_k0s.Prelude.Int.{ℤ, pos, negsuc, eq_ℤ}
use machine_controller_k0s.Prelude.Decimal.{Text, codes, text_eq, format_int}
use machine_controller_k0s.Api.{
  api, already_exists, not_found, Result, ok, err, deref, Api, send, ◌>>=◌,
}
use machine_controller_k0s.Objects.{MachineSet, MachineDeployment, OwnerReference, value_at}
use machine_controller_k0s.Externals.{Externals}
use machine_controller_k0s.Retries.{Retries}
use machine_controller_k0s.Admission.{populate_defaults_machine_deployment}
use machine_controller_k0s.Deployment.Annotations.{
  made, revision_annotation, unique_label_key, max_revision, set_deployment_revision,
  set_new_machine_set_annotations, clone_and_add_label, clone_selector_and_add_label,
}
use machine_controller_k0s.Deployment.Fenceposts.{max_surge, new_ms_new_replicas}
use machine_controller_k0s.Deployment.Find.{
  pointers_and, find_new_machine_set, find_old_machine_sets, equal_ignore_hash,
}
use machine_controller_k0s.Deployment.Scaling.{
  Request, update_machine_set, create_machine_set, update_deployment,
}

-- The deployment in memory, and what the next reads of it and of machine sets find.
pub record Deploying : Type 0 where
  pub deployment : MachineDeployment
  pub deployment_reads : List (Result MachineDeployment)
  pub set_reads : List (Result MachineSet)
  pub server : Api Request

-- `equality.Semantic.DeepEqual` on deployments, beside the retries.
pub record Client : Type 1 where
  pub retries : Retries
  pub same_deployment : MachineDeployment → MachineDeployment → Bool

abbrev get_deployment : Deploying → Result MachineDeployment × Deploying
get_deployment s = elim s.deployment_reads [
  | [] ↦ (err (api not_found), s)
  | r ∷ rest ↦ (r, record s { deployment_reads = rest })
]

abbrev get_set : Deploying → Result MachineSet × Deploying
get_set s = elim s.set_reads [
  | [] ↦ (err (api not_found), s)
  | r ∷ rest ↦ (r, record s { set_reads = rest })
]

unfoldable pub send_deployment : MachineDeployment → Deploying → Result {0} Unit × Deploying
unfolding send
send_deployment d s =
    let (e, server) = send (update_deployment d) s.server in
    let s' = record s { deployment = d; server = server } in
    elim e [ none ↦ (ok tt, s') | some why ↦ (err (api why), s') ]

-- One try: the latest version with its defaults, changed and written.
unfoldable pub try_update_deployment :
    (MachineDeployment → MachineDeployment) → Deploying → Result {0} Unit × Deploying
unfolding populate_defaults_machine_deployment send_deployment
try_update_deployment modify s =
    let (read, s') = get_deployment s in
    elim read [
      | err e ↦ (err e, s')
      | ok d ↦ send_deployment (modify (populate_defaults_machine_deployment d)) s'
    ]

-- The changes that the callers ask for are made to the deployment in memory before it is compared.
unfoldable pub update_machine_deployment :
    Client → (MachineDeployment → MachineDeployment) → Deploying → Result {0} Unit × Deploying
unfolding try_update_deployment
update_machine_deployment c modify s =
    let changed = record s { deployment = modify s.deployment } in
    let updated = c.retries.retry_on_conflict (try_update_deployment modify) changed in
    if c.same_deployment s.deployment (modify s.deployment) then (ok tt, changed) else updated

abbrev pub with_revision : Text → MachineDeployment → MachineDeployment
with_revision r d = (set_deployment_revision d r).0

abbrev pub delete_dependents : String
delete_dependents = "foregroundDeletion"

-- One more, in int64.
abbrev pub next_revision : ℤ → ℤ
next_revision (pos n) = if n == 9223372036854775807 then negsuc 9223372036854775807 else pos (suc n)
next_revision (negsuc zero) = pos 0
next_revision (negsuc (suc n)) = negsuc n

abbrev pub new_revision : List MachineSet → Text
new_revision old_mss = format_int (next_revision (max_revision old_mss))

module _ (x : Externals) (c : Client) where
  abbrev pub template_hash : MachineDeployment → Text
  template_hash d = format_int (pos (x.fnv_hash d.template))

  abbrev pub finalizers_of : MachineDeployment → List String
  finalizers_of d =
      if any (λ f. str_eq f delete_dependents) d.finalizers then delete_dependents ∷ [] else []

  abbrev seconds_of : Option ℤ → ℤ
  seconds_of none = pos 0
  seconds_of (some n) = n

  -- The set before its size and its annotations are known.
  unfoldable pub blank_machine_set : MachineDeployment → MachineSet
  unfolding format_int clone_and_add_label clone_selector_and_add_label
  blank_machine_set d =
      let labels =
        clone_and_add_label d.template.template_meta.labels unique_label_key (template_hash d) in
      record {
        meta = record {
          name = d.name ++ codes "-" ++ x.safe_encode_string (template_hash d);
          generate_name = [];
          namespace = d.namespace;
          uid = [];
          generation = pos 0;
          creation_timestamp = 0;
          deletion_timestamp = none;
          labels = labels;
          annotations = none;
          finalizers = finalizers_of d;
          owner_references = x.new_controller_ref d.meta ∷ [];
        };
        spec_replicas = some (pos 0);
        min_ready_seconds = seconds_of d.min_ready_seconds;
        delete_policy = [];
        selector = clone_selector_and_add_label d.selector unique_label_key (template_hash d);
        template = record d.template {
          template_meta = record d.template.template_meta { labels = labels };
        };
        status = record {
          replicas = pos 0;
          fully_labeled_replicas = pos 0;
          ready_replicas = pos 0;
          available_replicas = pos 0;
          observed_generation = pos 0;
        };
      }

  -- With its size and its annotations.
  unfoldable pub planned_machine_set : MachineDeployment → List MachineSet → Result MachineSet
  unfolding blank_machine_set new_ms_new_replicas set_new_machine_set_annotations max_surge
      format_int max_revision
  planned_machine_set d old_mss = do
    let blank = blank_machine_set d
    n ← new_ms_new_replicas x d (pointers_and old_mss (some blank)) blank
    (ms, changed) ←
        set_new_machine_set_annotations d (record blank { spec_replicas = some n })
          (new_revision old_mss) false (max_surge x d)
    ok ms

  abbrev is_owned : Option OwnerReference → Text → Bool
  is_owned none uid = false
  is_owned (some o) uid = text_eq o.owner_uid uid

  -- A set with that name is there: it is the deployment's own, or the hashes collide.
  unfoldable pub existing_or_collision : Deploying → Result MachineSet × Deploying
  unfolding text_eq equal_ignore_hash
  existing_or_collision s =
      let (read, s') = get_set s in
      elim read [
        | err e ↦ (err e, s')
        | ok ms ↦
            if is_owned (x.controller_of ms.meta) s.deployment.uid
              && equal_ignore_hash x s.deployment.template ms.template
            then (ok ms, s')
            else (err (api already_exists), s')
      ]

  unfoldable pub create_set : MachineSet → Deploying → Result MachineSet × Deploying
  unfolding send existing_or_collision
  create_set ms s =
      let (e, server) = send (create_machine_set ms) s.server in
      let s' = record s { server = server } in
      elim e [
        | none ↦ (ok ms, s')
        | some already_exists ↦ existing_or_collision s'
        | some why ↦ (err (api why), s')
      ]

  -- The set, after the deployment has its revision.
  unfoldable pub with_deployment_revision :
      Text → MachineSet → Deploying → Result (Option MachineSet) × Deploying
  unfolding update_machine_deployment set_deployment_revision
  with_deployment_revision r ms s =
      let (updated, s') = update_machine_deployment c (with_revision r) s in
      elim updated [ err e ↦ (err e, s') | ok u ↦ (ok (some ms), s') ]

  unfoldable pub send_set : MachineSet → Deploying → Result (Option MachineSet) × Deploying
  unfolding send
  send_set ms s =
      let (e, server) = send (update_machine_set ms) s.server in
      let s' = record s { server = server } in
      elim e [ none ↦ (ok none, s') | some why ↦ (err (api why), s') ]

  -- A set with the template of the deployment: its annotations and its seconds are brought up to date
  -- first, after which the next reconciliation goes on.
  unfoldable pub sync_existing :
      MachineSet → Text → Deploying → Result (Option MachineSet) × Deploying
  unfolding set_new_machine_set_annotations max_surge send_set with_deployment_revision value_at
  sync_existing existing r s =
      elim (set_new_machine_set_annotations s.deployment existing r true
        (max_surge x s.deployment)) [
          | err e ↦ (err e, s)
          | ok (ms, annotated) ↦ elim (deref s.deployment.min_ready_seconds) [
            | err e ↦ (err e, s)
            | ok seconds ↦
                if annotated || not (eq_ℤ ms.min_ready_seconds seconds)
                then send_set (record ms { min_ready_seconds = seconds }) s
                else with_deployment_revision (value_at revision_annotation (made ms.annotations))
                    ms s
          ]
        ]

  -- `ok none` where there is no set to go on with.
  unfoldable pub get_new_machine_set :
      Bool → List MachineSet → List MachineSet → Deploying → Result (Option MachineSet) × Deploying
  unfolding find_new_machine_set sync_existing planned_machine_set create_set
      with_deployment_revision format_int max_revision
  get_new_machine_set create_if_not_existed ms_list old_mss s =
      let r = new_revision old_mss in
      elim (find_new_machine_set x s.deployment ms_list).0 [
        | some existing ↦ sync_existing existing r s
        | none ↦
            if not create_if_not_existed
            then (ok none, s)
            else elim (planned_machine_set s.deployment old_mss) [
              | err e ↦ (err e, s)
              | ok ms ↦
                  let (created, s') = create_set ms s in
                  elim created [
                    | err e ↦ (err e, s')
                    | ok made_set ↦ with_deployment_revision r made_set s'
                  ]
            ]
      ]

  -- The new set, and the old ones.
  unfoldable pub get_all_machine_sets_and_sync_revision :
      Bool → List MachineSet → Deploying → Result (Option MachineSet × List MachineSet) × Deploying
  unfolding find_old_machine_sets get_new_machine_set
  get_all_machine_sets_and_sync_revision create_if_not_existed ms_list s =
      elim (find_old_machine_sets x s.deployment ms_list) [
        | err e ↦ (err e, s)
        | ok (wanting, old_mss) ↦
            let (found, s') = get_new_machine_set create_if_not_existed ms_list old_mss s in
            elim found [ err e ↦ (err e, s') | ok new_ms ↦ (ok (new_ms, old_mss), s') ]
      ]
