-- ===== src/Machines/Update.antt =====
-- The machine in memory and its updates: GetMachineUpdater of pkg/cloudprovider/types/types.go, and
-- what pkg/controller/machine/machine.go and pkg/rhsm/util.go do by it.
use machine_controller_k0s.Prelude.{
  List, [], ◌∷◌, ◌++◌, Option, none, some, Bool, true, false, not, ◌||◌, ◌≡◌, any, keep_if,
  if◌then◌else◌, String, str_eq,
}
use machine_controller_k0s.Prelude.Decimal.{Text}
use machine_controller_k0s.Api.{api, not_found, message, Result, ok, err, Api, send}
use machine_controller_k0s.Objects.{Machine, Node, Taint}
use machine_controller_k0s.Retries.{Retries}
use machine_controller_k0s.Machines.Requests.{Request, update_machine}

-- The object that the controller holds, what the next reads of machines and of nodes find, and the
-- server.
pub record Machining : Type 0 where
  pub machine : Machine
  pub machine_reads : List (Result Machine)
  pub node_reads : List (Result Node)
  pub server : Api Request

abbrev pub has_finalizer : String → List String → Bool
has_finalizer f l = any (λ g. str_eq g f) l

-- client-go, apimachinery: the retries, `equality.Semantic.DeepEqual` on machines, the match of two
-- taints, and the sorted list without duplicates that `sets.String` gives.
pub record Client : Type 1 where
  pub retries : Retries
  pub same_machine : Machine → Machine → Bool
  pub same_machine_finalizers :
      (a b : Machine) → same_machine a b ≡ true → a.finalizers ≡ b.finalizers
  -- `Taint.MatchTaint`
  pub match_taint : Taint → Taint → Bool
  pub sorted_set : List String → List String
  pub sorted_set_lem :
      (f : String) (l : List String) → has_finalizer f (sorted_set l) ≡ has_finalizer f l

abbrev pub finalizer_delete_instance : String
finalizer_delete_instance = "machine-delete-finalizer"

abbrev pub finalizer_delete_node : String
finalizer_delete_node = "machine-node-delete-finalizer"

abbrev pub red_hat_subscription_finalizer : String
red_hat_subscription_finalizer = "kubermatic.io/red-hat-subscription"

abbrev pub with_finalizers : List String → Machine → Machine
with_finalizers l m = record m { meta = record m.meta { finalizers = l } }

-- `Get` of the machine, which a list that is used up does not find.
unfoldable pub get_machine : Machining → Result Machine × Machining
get_machine s = elim s.machine_reads [
  | [] ↦ (err (api not_found), s)
  | r ∷ rest ↦ (r, record s { machine_reads = rest })
]

unfoldable pub send_machine : Machine → Machining → Result {0} Unit × Machining
unfolding send
send_machine m s =
    let (e, server) = send (update_machine m) s.server in
    let s' = record s { machine = m; server = server } in
    elim e [ none ↦ (ok tt, s') | some why ↦ (err (api why), s') ]

abbrev pub set_error : Text → Text → Machine → Machine
set_error reason text m = record m { error_reason = some reason; error_message = some text }

abbrev pub clear_error : Machine → Machine
clear_error m = record m { error_reason = none; error_message = none }

abbrev is_some : Option Text → Bool
is_some none = false
is_some (some t) = true

module _ (c : Client) where
  -- One try: the object is read, changed in place, and written if that changed it.
  unfoldable pub try_update_machine : (Machine → Machine) → Machining → Result {0} Unit × Machining
  unfolding get_machine send_machine
  try_update_machine modify s =
      let (read, s') = get_machine s in
      elim read [
        | err e ↦ (err e, s')
        | ok m ↦
            if c.same_machine m (modify m)
            then (ok tt, record s' { machine = modify m })
            else send_machine (modify m) s'
      ]

  unfoldable pub update_machine_with : (Machine → Machine) → Machining → Result {0} Unit × Machining
  unfolding try_update_machine
  update_machine_with modify s = c.retries.retry_on_conflict (try_update_machine modify) s

  unfoldable pub update_machine_error : Text → Text → Machining → Result {0} Unit × Machining
  unfolding update_machine_with
  update_machine_error reason text s = update_machine_with (set_error reason text) s

  -- The error of the update is only logged.
  unfoldable pub clear_machine_error : Machining → Machining
  unfolding update_machine_with
  clear_machine_error s =
      if is_some s.machine.error_message || is_some s.machine.error_reason
      then (update_machine_with clear_error s).1
      else s

  abbrev pub inserted_finalizers : Machine → Machine
  inserted_finalizers m =
      with_finalizers
        (c.sorted_set (finalizer_delete_node ∷ finalizer_delete_instance ∷ m.finalizers)) m

  unfoldable pub ensure_delete_finalizer_exists : Machining → Result {0} Unit × Machining
  unfolding update_machine_with
  ensure_delete_finalizer_exists s =
      let (updated, s') = update_machine_with inserted_finalizers s in
      if has_finalizer finalizer_delete_instance s.machine.finalizers
      then (ok tt, s)
      else elim updated [
        | err e ↦ (
          err (message "failed to update machine after adding the delete instance finalizer"),
          s',
        )
        | ok u ↦ (ok tt, s')
      ]

  abbrev pub without_finalizer : String → Machine → Machine
  without_finalizer f m =
      with_finalizers (c.sorted_set (keep_if (λ g. not (str_eq g f)) m.finalizers)) m

  -- The source changes the finalizers only if the one to delete is there.
  abbrev pub without_node_finalizer : Machine → Machine
  without_node_finalizer m =
      if has_finalizer finalizer_delete_node m.finalizers
      then without_finalizer finalizer_delete_node m
      else m

  abbrev pub with_subscription : Machine → Machine
  with_subscription m = with_finalizers (m.finalizers ++ (red_hat_subscription_finalizer ∷ [])) m

  unfoldable pub remove_rhel_subscription_finalizer : Machining → Result {0} Unit × Machining
  unfolding update_machine_with
  remove_rhel_subscription_finalizer s =
      let updated = update_machine_with (without_finalizer red_hat_subscription_finalizer) s in
      if has_finalizer red_hat_subscription_finalizer s.machine.finalizers
      then updated
      else (ok tt, s)

  unfoldable pub add_rhel_subscription_finalizer : Machining → Result {0} Unit × Machining
  unfolding update_machine_with
  add_rhel_subscription_finalizer s =
      let updated = update_machine_with with_subscription s in
      if has_finalizer red_hat_subscription_finalizer s.machine.finalizers
      then (ok tt, s)
      else updated
