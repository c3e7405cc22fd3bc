-- ===== src/Deployment/Counts.antt =====
-- The sums over machine sets of pkg/controller/machinedeployment/util/util.go. A slice may hold nil
-- pointers, which the loops skip; a set whose `spec.replicas` is nil makes the first sum panic.
use machine_controller_k0s.Prelude.{
  ℕ, ◌+◌, ◌<◌, ◌≡◌, List, [], ◌∷◌, Option, none, some, arith, All, sum_of,
}
use machine_controller_k0s.Prelude.Int.{ℤ, pos, negsuc, add32, add32_pos}
use machine_controller_k0s.Api.{Result, ok, deref, ◌>>=◌}
use machine_controller_k0s.Objects.{MachineSet}

-- The loop of `GetReplicaCountForMachineSets`.
unfoldable pub replica_count_from : ℤ → List (Option MachineSet) → Result ℤ
replica_count_from total [] = ok total
replica_count_from total (none ∷ rest) = replica_count_from total rest
replica_count_from total (some ms ∷ rest) = do
  n ← deref ms.spec_replicas
  replica_count_from (add32 total n) rest

unfoldable pub get_replica_count_for_machine_sets : List (Option MachineSet) → Result ℤ
unfolding replica_count_from
get_replica_count_for_machine_sets = replica_count_from (pos 0)

-- The loop of the three sums over the status.
unfoldable pub status_count_from : (MachineSet → ℤ) → ℤ → List (Option MachineSet) → ℤ
status_count_from f total [] = total
status_count_from f total (none ∷ rest) = status_count_from f total rest
status_count_from f total (some ms ∷ rest) = status_count_from f (add32 total (f ms)) rest

unfoldable pub get_actual_replica_count_for_machine_sets : List (Option MachineSet) → ℤ
unfolding status_count_from
get_actual_replica_count_for_machine_sets = status_count_from (λ ms. ms.status.replicas) (pos 0)

unfoldable pub get_ready_replica_count_for_machine_sets : List (Option MachineSet) → ℤ
unfolding status_count_from
get_ready_replica_count_for_machine_sets =
    status_count_from (λ ms. ms.status.ready_replicas) (pos 0)

unfoldable pub get_available_replica_count_for_machine_sets : List (Option MachineSet) → ℤ
unfolding status_count_from
get_available_replica_count_for_machine_sets =
    status_count_from (λ ms. ms.status.available_replicas) (pos 0)

-- A count as a natural number: 0 for a nil pointer or a negative value.
abbrev pub nat_of : ℤ → ℕ
nat_of (pos n) = n
nat_of (negsuc n) = 0

abbrev pub nat_of_count : Option ℤ → ℕ
nat_of_count none = 0
nat_of_count (some a) = nat_of a

abbrev pub size : MachineSet → ℕ
size ms = nat_of_count ms.spec_replicas

abbrev pub available : MachineSet → ℕ
available ms = nat_of ms.status.available_replicas

-- The set asks for a number of machines that is an `int32` and not negative.
abbrev pub IsSized : MachineSet → Type 0
IsSized ms = (ms.spec_replicas ≡ some (pos (size ms))) × (size ms < 2147483648)

-- The pointers to the sets of a list, none of them nil.
abbrev pub pointers : List MachineSet → List (Option MachineSet)
pointers [] = []
pointers (ms ∷ rest) = some ms ∷ pointers rest

replica_count_from-pos :
    (t : ℕ) (mss : List MachineSet)
    → All IsSized mss
    → t + sum_of size mss < 2147483648
    → replica_count_from (pos t) (pointers mss) ≡ ok (pos (t + sum_of size mss))
unfolding replica_count_from
replica_count_from-pos t [] sized fits = ground arith
replica_count_from-pos t (ms ∷ rest) sized fits =
    ground (arith, add32_pos t (size ms), replica_count_from-pos (t + size ms) rest sized.1)

-- The wrapped sum is the sum, where that is an `int32`.
pub replica_count-pointers :
    (mss : List MachineSet)
    → All IsSized mss
    → sum_of size mss < 2147483648
    → get_replica_count_for_machine_sets (pointers mss) ≡ ok (pos (sum_of size mss))
unfolding get_replica_count_for_machine_sets
replica_count-pointers mss sized fits =
    rw (replica_count_from-pos 0 mss sized (omega arith)) (ground arith)

abbrev pub HasAvailable : MachineSet → Type 0
HasAvailable ms = (ms.status.available_replicas ≡ pos (available ms)) × (available ms < 2147483648)

available_count_from-pos :
    (t : ℕ) (mss : List MachineSet)
    → All HasAvailable mss
    → t + sum_of available mss < 2147483648
    → status_count_from (λ ms. ms.status.available_replicas) (pos t) (pointers mss)
      ≡ pos (t + sum_of available mss)
unfolding status_count_from
available_count_from-pos t [] sized fits = ground arith
available_count_from-pos t (ms ∷ rest) sized fits =
    ground
      (arith, add32_pos t (available ms), available_count_from-pos (t + available ms) rest sized.1)

pub available_count-pointers :
    (mss : List MachineSet)
    → All HasAvailable mss
    → sum_of available mss < 2147483648
    → get_available_replica_count_for_machine_sets (pointers mss) ≡ pos (sum_of available mss)
unfolding get_available_replica_count_for_machine_sets
available_count-pointers mss sized fits =
    rw (available_count_from-pos 0 mss sized (omega arith)) (ground arith)
