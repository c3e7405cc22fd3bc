-- ===== src/Certificates/Trust.antt =====
-- Which requests are approved: pkg/controller/nodecsrapprover/node_csr_approver.go.
use machine_controller_k0s.Prelude.{
  ◌≡◌, ◌⊎◌, inl, inr, List, [], ◌∷◌, none, some, arith, Bool-cases, Option-cases, IsAmong,
}
use machine_controller_k0s.Prelude.Decimal.{Text, text_eq, text_eq_iff}
use machine_controller_k0s.Api.{ok, err, Error, Api, ask, send, Result-cases}
use machine_controller_k0s.Objects.{Machine}
use machine_controller_k0s.Certificates.Checks.{
  IsNodeRequest, IsCertified, validate_csr_object-IsNodeRequest, check_certificate-IsCertified,
}
use machine_controller_k0s.Certificates.{
  Csr, Library, Request, update_approval, validate_csr_object, find_machine, get_machine_for_node,
  approve, approve_csr, check_certificate, reconcile,
}

find_machine_lem :
    (node : Text) (machines : List Machine) (machine : Machine)
    → find_machine node machines ≡ some machine
    → machine.node_ref ≡ some node
unfolding find_machine
find_machine_lem node [] machine h = ground (arith, h)
find_machine_lem node (m ∷ machines) machine h = elim (Option-cases m.node_ref) [
  | inl e ↦ find_machine_lem node machines machine (ground (arith, h, e))
  | inr (name, e) ↦ elim (Bool-cases (text_eq name node)) [
    | inl same ↦ ground (arith, (text_eq_iff name node).0 same, h, e)
    | inr differs ↦ find_machine_lem node machines machine (ground (arith, h, e, differs))
  ]
]

find_machine-IsAmong :
    (node : Text) (machines : List Machine) (machine : Machine)
    → find_machine node machines ≡ some machine
    → IsAmong machine machines
unfolding find_machine
find_machine-IsAmong node [] machine h = ground (arith, h)
find_machine-IsAmong node (m ∷ machines) machine h = elim (Option-cases m.node_ref) [
  | inl e ↦ inr (find_machine-IsAmong node machines machine (ground (arith, h, e)))
  | inr (name, e) ↦ elim (Bool-cases (text_eq name node)) [
    | inl same ↦ inl (ground (arith, same, h, e))
    | inr differs ↦ inr (find_machine-IsAmong node machines machine (ground (arith, h, e, differs)))
  ]
]

-- A node of a machine of the cluster asks for the certificate.
abbrev pub IsTrustworthy : Library → List Machine → Csr → Type 0
IsTrustworthy x machines csr =
    (node : Text) × (machine : Machine) × IsNodeRequest node csr
    × IsAmong machine machines
    × (machine.node_ref ≡ some node)
    × IsCertified x node csr machine

-- How far a reconciliation came.
reconcile_unnamed :
    (x : Library) (machines : List Machine) (csr : Csr) (s : Api Request) (why : Error)
    → validate_csr_object csr ≡ err why
    → (reconcile x machines csr s).1.accepted ≡ s.accepted
unfolding reconcile ask
reconcile_unnamed x machines csr s why e = ground arith

reconcile_unfound :
    (x : Library) (machines : List Machine) (csr : Csr) (s : Api Request) (node : Text)
    → validate_csr_object csr ≡ ok node
    → find_machine node machines ≡ none
    → (reconcile x machines csr s).1.accepted ≡ s.accepted
unfolding reconcile ask get_machine_for_node
reconcile_unfound x machines csr s node e f = ground arith

reconcile_uncertified :
    (x : Library) (machines : List Machine) (csr : Csr) (s : Api Request) (node : Text)
    (machine : Machine) (why : Error)
    → validate_csr_object csr ≡ ok node
    → find_machine node machines ≡ some machine
    → check_certificate x csr machine ≡ err why
    → (reconcile x machines csr s).1.accepted ≡ s.accepted
unfolding reconcile ask get_machine_for_node
reconcile_uncertified x machines csr s node machine why e f g = ground arith

reconcile_certified :
    (x : Library) (machines : List Machine) (csr : Csr) (s : Api Request) (node : Text)
    (machine : Machine)
    → validate_csr_object csr ≡ ok node
    → find_machine node machines ≡ some machine
    → check_certificate x csr machine ≡ ok tt
    → ((reconcile x machines csr s).1.accepted ≡ s.accepted)
      ⊎ ((reconcile x machines csr s).1.accepted ≡ update_approval (approve csr) ∷ s.accepted)
unfolding reconcile ask get_machine_for_node approve_csr send
reconcile_certified x machines csr s node machine e f g = ground arith

-- Whatever the server answers, a reconciliation has nothing accepted, or it has exactly the
-- approval of a request accepted that a node of a listed machine made: the user is that node, both
-- groups of nodes are there, the usages are three allowed ones, and the certificate request in its
-- only PEM block has that user as its common name, the group of nodes as its organization, and only
-- DNS names and IP addresses of the machine, or empty ones. Of its email addresses and URIs nothing
-- is said, since the code does not look at them.
pub reconcile-IsTrustworthy :
    (x : Library) (machines : List Machine) (csr : Csr) (s : Api Request)
    → ((reconcile x machines csr s).1.accepted ≡ s.accepted)
      ⊎ (IsTrustworthy x machines csr
          × ((reconcile x machines csr s).1.accepted ≡ update_approval (approve csr) ∷ s.accepted))
reconcile-IsTrustworthy x machines csr s = elim (Result-cases (validate_csr_object csr)) [
  | inr (why, e) ↦ inl (reconcile_unnamed x machines csr s why e)
  | inl (node, e) ↦ elim (Option-cases (find_machine node machines)) [
    | inl f ↦ inl (reconcile_unfound x machines csr s node e f)
    | inr (machine, f) ↦ elim (Result-cases (check_certificate x csr machine)) [
      | inr (why, g) ↦ inl (reconcile_uncertified x machines csr s node machine why e f g)
      | inl (u, g) ↦ elim (reconcile_certified x machines csr s node machine e f g) [
        | inl none_sent ↦ inl none_sent
        | inr sent ↦
            let named = find_machine_lem node machines machine f in
            inr (
              (
                node,
                machine,
                validate_csr_object-IsNodeRequest csr node e,
                find_machine-IsAmong node machines machine f,
                named,
                check_certificate-IsCertified x node csr machine named g,
              ),
              sent,
            )
      ]
    ]
  ]
]
