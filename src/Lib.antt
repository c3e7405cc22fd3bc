-- ===== src/Lib.antt =====
-- The machine-controller of Kubernetes clusters: machine deployments, machine sets, machines and
-- their nodes, and what stands around them: the webhook that admits deployments, the approval of
-- certificates, the eviction of nodes and the configuration of providers.
--
-- The program's parts. The deployment controller (pkg/controller/machinedeployment) owns machine
-- sets: one for the current template, the new one, and the old ones. It moves the size from the old
-- sets to the new one within the two fenceposts of the rollout, keeps the annotations and the
-- status, and deletes old sets beyond the history limit. The machine set controller
-- (pkg/controller/machineset) owns machines: it claims those that match, creates and deletes
-- machines until their number is the size of the set, and reports their states. The webhook
-- (pkg/admission) fills in defaults and validates a deployment before the controllers see it, and
-- keeps the spec of a machine from changing. The
-- machine controller (pkg/controller/machine) creates an instance and finds the node of a machine,
-- and deletes both: it has the pods of the node evicted (pkg/node/eviction), asks the provider
-- (pkg/cloudprovider) to clean up, and deletes the node last. Finalizers on the machine keep it
-- until then. The approver of certificates (pkg/controller/nodecsrapprover) signs for the nodes of
-- machines. Providers read their configuration through pkg/providerconfig, and their validations
-- are cached. The controllers share the objects of pkg/apis/cluster/v1alpha1 on the API server and
-- call nothing of each other.
--
-- The files.
--   Prelude: numbers, Boolean tests, lists, sorting, maps, prefixes, int32 and decimal texts.
--   Api: the API server and the errors. Every write and every read that can fail takes the next
--     answer of a list, so that a theorem for all lists is one for all behaviours of the server.
--   Objects: the objects, with the fields that the modelled code uses.
--   Externals: the functions of other packages, with the laws of their documentation.
--   Deployment.Counts, .Annotations, .Fenceposts, .Find:
--     pkg/controller/machinedeployment/util/util.go.
--   Deployment.Scaling, .Status, .Cleanup, .Sync: pkg/controller/machinedeployment/sync.go
--     (scaleMachineSet, calculateStatus, syncDeploymentStatus, cleanupDeployment, scale).
--   Deployment.Rolling: pkg/controller/machinedeployment/rolling.go (reconcileNewMachineSet,
--     reconcileOldMachineSets and their two loops, which are one definition, `sweep`, with two
--     bodies).
--   Deployment.NewSet, .Rollout: getNewMachineSet of sync.go and rolloutRolling of rolling.go.
--   MachineSets.DeletePolicy: pkg/controller/machineset/delete_policy.go.
--   MachineSets.Replicas, .Reconcile: pkg/controller/machineset/machineset_controller.go and
--     hasMatchingLabels of machine.go.
--   MachineSets.NodeStatus: pkg/controller/machineset/status.go.
--   Machines: pkg/controller/machine/machine.go. Machines itself is shouldEvict; Machines.Requests
--     its writes, .Update the machine in memory (GetMachineUpdater of
--     pkg/cloudprovider/types/types.go, and pkg/rhsm/util.go), .Provider the interface of the
--     providers, .Deletion deleteMachine, .Nodes the settings of a node, .Link getNode and the
--     reference to it, .Instances the creation, .Reconcile the reconciliation.
--   Retries: what retry.RetryOnConflict may do, which the machine controller and the eviction use.
--   Eviction: pkg/node/eviction/eviction.go. Eviction.Drain is Run with the cordon, .Pods the
--     choice of pods, .Workers the goroutines of evictPods as a step relation.
--   Certificates: pkg/controller/nodecsrapprover/node_csr_approver.go.
--   ProviderConfig: pkg/providerconfig/types/types.go, and .Resolver pkg/providerconfig/types.go.
--   ValidationCache: pkg/cloudprovider/cache/cloudprovidercache.go and
--     pkg/cloudprovider/validationwrapper.go.
--   Admission: pkg/apis/cluster/v1alpha1/defaults.go and
--     pkg/admission/machinedeployments_validation.go; .Webhook pkg/admission/machines.go and
--     pkg/admission/machinedeployments.go.
--   Examples: concrete objects, tests, and the theorems at concrete inputs.
-- The definitions have the names of the source's functions, in lower case; the modules below a
-- component hold its proofs.
--
-- How code becomes definitions. An int32 is an integer that each operation wraps (`add32`, `sub32`,
-- `mul32`). A function that changes objects in place returns them changed, on an error too; a
-- pointer is an Option, and the read of a nil one is the error `panicked`. sort.Sort is an insertion
-- sort, which fixes one of the orders that Go may give to elements that compare equal. A float64 is
-- an external: the quotient in the scaling and the priorities of machines. The goroutines that
-- delete machines reach the server in an order that is a parameter, and the wait group is the
-- comparison of what is added to it with what is done. A wait on the server is the list of what its
-- reads find, by the place of the machine in the wait, since the name that the server gives to a new
-- machine is not modelled. A nil map is a missing one, and a write to it panics. What encoding/json
-- does around the methods of a configuration variable is a parameter, with laws for plain texts. The clock is read once per reconciliation, where the source reads it for
-- each machine. All loops run over lists or count down, so no fuel is needed; the retries of a status
-- are the constant of the source. RetryOnConflict is a parameter of which only this is known: its
-- result is that of some call of the function before which every call met a conflict. An object that
-- is read again gets what a list of reads holds. A provider is a record of functions that may change
-- the machine, as the source lets it. The goroutines of evictPods take their steps in any order, and
-- each request of theirs is answered; `isDone`, the channels and the wait group are parts of the
-- state.
--
-- Not modelled: the claim of machine sets by deployments; cloud providers, user data and
-- subscriptions, which are calls of other libraries; bootstrap tokens; the migration of types;
-- watches, events, log lines, resource versions, readiness checks and metrics.
pub mod Prelude
pub mod Api
pub mod Objects
pub mod Externals
pub mod Deployment
pub mod Admission
pub mod Certificates
pub mod ProviderConfig
pub mod ValidationCache
pub mod Retries
pub mod Eviction
pub mod Machines
pub mod MachineSets
pub mod Examples
