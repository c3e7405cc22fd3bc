-- ===== src/Objects.antt =====
-- The objects that the controllers work on: pkg/apis/cluster/v1alpha1, the fields that the modelled
-- code reads or writes. A pointer is an `Option`, and so is a map
-- that may be `nil` and that the code writes; a map that the code only reads is its entries.
use machine_controller_k0s.Prelude.{ℕ, List, [], Option, none, some, Bool, String}
use machine_controller_k0s.Prelude.{lookup}
use machine_controller_k0s.Prelude.Int.{ℤ}
use machine_controller_k0s.Prelude.Decimal.{Text}

abbrev pub Labels : Type 0
Labels = List (String × Text)

-- The read of a key of a map: the empty text where it is missing.
unfoldable pub value_at : String → Labels → Text
unfolding lookup
value_at k m = elim (lookup k m) [ none ↦ [] | some v ↦ v ]

-- The entries of a map, of which a `nil` one has none.
abbrev pub read_map : Option Labels → Labels
read_map none = []
read_map (some m) = m

-- `metav1.OwnerReference`.
pub record OwnerReference : Type 0 where
  pub kind : Text
  pub owner_uid : Text
  pub controller : Option Bool

-- `metav1.ObjectMeta`.
pub record ObjectMeta : Type 0 where
  pub name : Text
  pub generate_name : Text
  pub namespace : Text
  pub uid : Text
  pub generation : ℤ
  pub creation_timestamp : ℕ
  pub deletion_timestamp : Option ℕ
  pub labels : Option Labels
  pub annotations : Option Labels
  pub finalizers : List String
  pub owner_references : List OwnerReference

pub record Requirement : Type 0 where
  pub key : String
  pub operator : Text
  pub values : Option (List Text)

-- `metav1.LabelSelector`.
pub record LabelSelector : Type 0 where
  pub match_labels : Labels
  pub match_expressions : Option (List Requirement)

-- `corev1.Taint`
pub record Taint : Type 0 where
  pub taint_key : Text
  pub taint_value : Text
  pub effect : Text

-- `MachineSpec`, with the fields of its `ObjectMeta` in front; `provider_spec` is the JSON text of
-- `ProviderSpec`, and a config source is its JSON text.
pub record MachineSpec : Type 0 where
  pub spec_name : Text
  pub spec_labels : Labels
  pub spec_annotations : Labels
  pub taints : List Taint
  pub provider_spec : Text
  pub kubelet : Text
  pub config_source : Option Text

-- `MachineTemplateSpec`
pub record MachineTemplateSpec : Type 0 where
  pub template_meta : ObjectMeta
  pub machine_spec : MachineSpec

abbrev pub template_labels : MachineTemplateSpec → Labels
template_labels t = read_map t.template_meta.labels

pub record MachineSetStatus : Type 0 where
  pub replicas : ℤ
  pub fully_labeled_replicas : ℤ
  pub ready_replicas : ℤ
  pub available_replicas : ℤ
  pub observed_generation : ℤ

pub record MachineSet : Type 0 where
  pub meta : ObjectMeta
  pub open meta use *
  pub spec_replicas : Option ℤ
  pub min_ready_seconds : ℤ
  pub delete_policy : Text
  pub selector : LabelSelector
  pub template : MachineTemplateSpec
  pub status : MachineSetStatus

-- `intstr.IntOrString`.
pub data IntOrString : Type 0 where
  int_val : ℤ → IntOrString
  str_val : Text → IntOrString

pub record RollingUpdate : Type 0 where
  pub max_unavailable : Option IntOrString
  pub max_surge : Option IntOrString

-- `MachineDeploymentStrategyType`; `unset` is the empty text, `other` any other one.
pub data StrategyType : Type 0 where
  rolling unset other : StrategyType

pub record Strategy : Type 0 where
  pub type : StrategyType
  pub rolling_update : Option RollingUpdate

pub record MachineDeploymentStatus : Type 0 where
  pub observed_generation : ℤ
  pub replicas : ℤ
  pub updated_replicas : ℤ
  pub ready_replicas : ℤ
  pub available_replicas : ℤ
  pub unavailable_replicas : ℤ

pub record MachineDeployment : Type 0 where
  pub meta : ObjectMeta
  pub open meta use *
  pub spec_replicas : Option ℤ
  pub selector : LabelSelector
  pub template : MachineTemplateSpec
  pub strategy : Option Strategy
  pub min_ready_seconds : Option ℤ
  pub revision_history_limit : Option ℤ
  pub progress_deadline_seconds : Option ℤ
  pub paused : Bool
  pub status : MachineDeploymentStatus

pub data ConditionType : Type 0 where
  node_ready other_condition : ConditionType

pub data ConditionStatus : Type 0 where
  condition_true condition_false condition_unknown : ConditionStatus

-- `corev1.NodeCondition`; a transition time of 0 is the zero time.
pub record NodeCondition : Type 0 where
  pub type : ConditionType
  pub condition_status : ConditionStatus
  pub last_transition_time : ℕ

-- `corev1.NodeAddressType`
pub data AddressType : Type 0 where
  internal_dns : AddressType
  other_address : Text → AddressType

pub record NodeAddress : Type 0 where
  pub address : Text
  pub address_type : AddressType

-- `corev1.Node`
pub record Node : Type 0 where
  pub meta : ObjectMeta
  pub open meta use *
  pub unschedulable : Bool
  pub conditions : List NodeCondition
  pub node_taints : List Taint
  pub node_config_source : Option Text
  pub provider_id : Text
  pub node_addresses : List NodeAddress
  pub kubelet_version : Text

-- References to other objects are their names; `kubelet_version` is that of `Status.Versions`.
pub record Machine : Type 0 where
  pub meta : ObjectMeta
  pub open meta use *
  pub spec : MachineSpec
  pub node_ref : Option Text
  pub error_reason : Option Text
  pub error_message : Option Text
  pub addresses : List NodeAddress
  pub conditions : List NodeCondition
  pub kubelet_version : Option Text
