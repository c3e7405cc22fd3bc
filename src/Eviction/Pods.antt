-- ===== src/Eviction/Pods.antt =====
-- The pods of a node, and which of them are evicted: pkg/node/eviction/eviction.go.
use machine_controller_k0s.Prelude.{
  List, [], ◌∷◌, Option, none, some, Bool, true, false, if◌then◌else◌, String, lookup,
}
use machine_controller_k0s.Prelude.Decimal.{Text, codes, text_eq}
use machine_controller_k0s.Objects.{ObjectMeta, OwnerReference, Labels}

-- `corev1.PodPhase`
pub data Phase : Type 0 where
  pod_succeeded pod_failed : Phase
  other_phase : Text → Phase

pub record Pod : Type 0 where
  pub meta : ObjectMeta
  pub open meta use *
  pub phase : Phase

-- The read of a key of a map that may be nil.
unfoldable pub has_annotation : String → Option Labels → Bool
unfolding lookup
has_annotation key none = false
has_annotation key (some m) = elim (lookup key m) [ none ↦ false | some v ↦ true ]

abbrev pub is_over : Phase → Bool
is_over pod_succeeded = true
is_over pod_failed = true
is_over (other_phase p) = false

abbrev pub is_of_daemon_set : Option OwnerReference → Bool
is_of_daemon_set none = false
is_of_daemon_set (some o) = text_eq o.kind (codes "DaemonSet")

-- `controller_of` is `metav1.GetControllerOf`, `mirror` is `corev1.MirrorPodAnnotationKey`.
module _ (controller_of : ObjectMeta → Option OwnerReference) (mirror : String) where
  unfoldable pub filter_pods : List Pod → List Pod
  unfolding has_annotation text_eq
  filter_pods [] = []
  filter_pods (pod ∷ pods) =
      let rest = filter_pods pods in
      if is_over pod.phase
      then rest
      else if is_of_daemon_set (controller_of pod.meta)
      then rest
      else if has_annotation mirror pod.annotations
      then rest
      else pod ∷ rest
