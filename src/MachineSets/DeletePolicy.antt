-- ===== src/MachineSets/DeletePolicy.antt =====
-- The choice of the machines to delete: pkg/controller/machineset/delete_policy.go.
pub mod Order
use machine_controller_k0s.Prelude.{
  ℕ, suc, ◌-◌, ◌≡◌, ◌⊎◌, List, [], ◌∷◌, Option, none, some, Bool, true, false, not, ◌&&◌, ◌||◌,
  String, sort, take, length, ltb, leb, ◌==◌, if◌then◌else◌,
}
use machine_controller_k0s.Prelude.Int.{ℤ, pos, negsuc, ltb_ℤ, leb_ℤ, sub_ℕ}
use machine_controller_k0s.Prelude.Decimal.{Text, codes, text_eq}
use machine_controller_k0s.Api.{Result, ok, err, unsupported_policy}
use machine_controller_k0s.Objects.{Labels, Machine, MachineSet, value_at}

abbrev pub delete_node_annotation : String
delete_node_annotation = "cluster.k8s.io/delete-machine"

-- `float64`, in which priorities are computed: `of_age s` is `100 * (1 - exp(-s / 864000))`, and
-- `remainder p` is `100 - p`. The laws are those of the order on the values that occur; none is a NaN.
pub record Priorities : Type 1 where
  pub Priority : Type 0
  pub must_delete : Priority
  pub better_delete : Priority
  pub could_delete : Priority
  pub must_not_delete : Priority
  pub of_age : ℕ → Priority
  pub remainder : Priority → Priority
  pub below : Priority → Priority → Bool
  pub below_asym : (p q : Priority) → below p q ≡ true → below q p ≡ false
  pub below_trans : (p q r : Priority) → below p q ≡ false → below q r ≡ false → below p r ≡ false

abbrev is_set : Option ℕ → Bool
is_set none = false
is_set (some t) = not (t == 0)

abbrev is_given : Option Text → Bool
is_given none = false
is_given (some s) = true

abbrev annotated : Option Labels → Bool
annotated none = false
annotated (some m) = not (text_eq (value_at delete_node_annotation m) [])

-- The first tests of each policy: the machine is being deleted, is annotated, or has failed.
unfoldable pub is_deleting : Machine → Bool
is_deleting machine = is_set machine.deletion_timestamp

unfoldable pub is_annotated : Machine → Bool
unfolding value_at text_eq
is_annotated machine = annotated machine.annotations

unfoldable pub has_failed : Machine → Bool
has_failed machine = is_given machine.error_reason || is_given machine.error_message

-- `v1alpha1.MachineSetDeletePolicy`
pub data DeletePolicy : Type 0 where
  random newest oldest : DeletePolicy

module _ (f : Priorities) where
  open f use {
    Priority, must_delete, better_delete, could_delete, must_not_delete, of_age, remainder, below,
  }

  -- `now` is the time of the call, in seconds; a creation time of 0 is the zero time.
  unfoldable pub oldest_delete_priority : ℕ → Machine → Priority
  unfolding is_deleting is_annotated has_failed
  oldest_delete_priority now machine =
      if is_deleting machine
      then must_delete
      else if is_annotated machine
      then must_delete
      else if has_failed machine
      then must_delete
      else if machine.creation_timestamp == 0
      then must_not_delete
      else if ltb now machine.creation_timestamp
      then must_not_delete
      else of_age (now - machine.creation_timestamp)

  unfoldable pub newest_delete_priority : ℕ → Machine → Priority
  unfolding is_deleting is_annotated has_failed oldest_delete_priority
  newest_delete_priority now machine =
      if is_deleting machine
      then must_delete
      else if is_annotated machine
      then must_delete
      else if has_failed machine
      then must_delete
      else remainder (oldest_delete_priority now machine)

  unfoldable pub random_delete_policy : Machine → Priority
  unfolding is_deleting is_annotated has_failed
  random_delete_policy machine =
      if is_deleting machine
      then must_delete
      else if is_annotated machine
      then better_delete
      else if has_failed machine
      then better_delete
      else could_delete

  -- `sortableMachines.Less`: high to low.
  unfoldable pub higher : (Machine → Priority) → Machine → Machine → Bool
  higher priority a b = below (priority b) (priority a)

  unfoldable pub get_machines_to_delete_prioritized :
      List Machine → ℤ → (Machine → Priority) → List Machine
  unfolding higher sort
  get_machines_to_delete_prioritized machines (negsuc n) priority = []
  get_machines_to_delete_prioritized machines (pos diff) priority =
      if leb (length machines) diff
      then machines
      else if diff == 0
      then []
      else take diff (sort (higher priority) machines)

  unfoldable pub get_delete_priority_func : ℕ → MachineSet → Result (Machine → Priority)
  unfolding random_delete_policy newest_delete_priority oldest_delete_priority text_eq
  get_delete_priority_func now ms =
      if text_eq ms.delete_policy (codes "Random")
      then ok random_delete_policy
      else if text_eq ms.delete_policy (codes "Newest")
      then ok (newest_delete_priority now)
      else if text_eq ms.delete_policy (codes "Oldest")
      then ok (oldest_delete_priority now)
      else if text_eq ms.delete_policy []
      then ok random_delete_policy
      else err unsupported_policy
