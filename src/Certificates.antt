-- ===== src/Certificates.antt =====
-- The approval of the serving certificates of kubelets:
-- pkg/controller/nodecsrapprover/node_csr_approver.go.
pub mod Checks
pub mod Trust
use machine_controller_k0s.Prelude.{
  map, ℕ, List, [], ◌∷◌, ◌++◌, Option, none, some, Bool, true, false, not, ◌&&◌, ltb, any, ◌==◌,
  length, if◌then◌else◌, has_prefix, trim_prefix, has_text,
}
use machine_controller_k0s.Prelude.Decimal.{Text, codes, text_eq}
use machine_controller_k0s.Api.{
  api, ApiError, not_found, Error, message, Result, ok, err, deref, Api, send, ask,
}
use machine_controller_k0s.Objects.{Machine}

-- `certificatesv1beta1.KeyUsage`
pub data KeyUsage : Type 0 where
  digital_signature key_encipherment server_auth : KeyUsage
  other_usage : Text → KeyUsage

-- The type of a condition of a request.
pub data RequestConditionType : Type 0 where
  certificate_approved : RequestConditionType
  other_request_condition : Text → RequestConditionType

-- `certificatesv1beta1.CertificateSigningRequest`; `request` is its bytes.
pub record Csr : Type 0 where
  pub csr_name : Text
  pub username : Text
  pub groups : List Text
  pub usages : List KeyUsage
  pub request : Text
  pub request_conditions : List RequestConditionType

-- `x509.CertificateRequest`; an IP address is its bytes.
pub record CertificateRequest : Type 0 where
  pub common_name : Text
  pub organization : List Text
  pub dns_names : List Text
  pub ip_addresses : List Text
  pub email_addresses : List Text
  pub uris : List Text

-- The functions of Go's library.
pub record Library : Type 0 where
  -- `pem.Decode`: the bytes of the block, which may be missing, and the rest
  pub pem_decode : Text → Option Text × Text
  pub parse_certificate_request : Text → Option CertificateRequest
  -- the method `String` of an IP address
  pub ip_string : Text → Text

pub data Request : Type 0 where
  update_approval : Csr → Request

abbrev pub node_user_prefix : Text
node_user_prefix = codes "system:node:"

abbrev pub node_group : Text
node_group = codes "system:nodes"

abbrev pub authenticated_group : Text
authenticated_group = codes "system:authenticated"

abbrev pub allowed_usages : List KeyUsage
allowed_usages = digital_signature ∷ key_encipherment ∷ server_auth ∷ []

abbrev usage_eq : KeyUsage → KeyUsage → Bool
usage_eq digital_signature digital_signature = true
usage_eq key_encipherment key_encipherment = true
usage_eq server_auth server_auth = true
usage_eq (other_usage s) (other_usage t) = text_eq s t
usage_eq u v = false

unfoldable pub is_usage_in_usage_list : KeyUsage → List KeyUsage → Bool
is_usage_in_usage_list usage [] = false
is_usage_in_usage_list usage (item ∷ list) =
    let later = is_usage_in_usage_list usage list in if usage_eq usage item then true else later

unfoldable pub are_usages_allowed : List KeyUsage → Bool
unfolding is_usage_in_usage_list
are_usages_allowed [] = true
are_usages_allowed (usage ∷ usages) =
    let later = are_usages_allowed usages in
    if not (is_usage_in_usage_list usage allowed_usages) then false else later

-- The name of the node that asks for the certificate.
unfoldable pub validate_csr_object : Csr → Result Text
unfolding has_prefix trim_prefix has_text are_usages_allowed
validate_csr_object csr =
    let node_name = trim_prefix csr.username node_user_prefix in
    if not (has_prefix csr.username node_user_prefix)
    then err (message "username must have the prefix")
    else if length node_name == 0
    then err (message "node name is empty")
    else if ltb (length csr.groups) 2
    then err (message "there are less than 2 groups")
    else if not (has_text node_group csr.groups && has_text authenticated_group csr.groups)
    then err (message "groups are not in its groups")
    else if not (length csr.usages == 3)
    then err (message "there are no exactly three usages defined")
    else if not (are_usages_allowed csr.usages)
    then err (message "usage is not in the list of allowed usages")
    else ok node_name

-- The node name and the addresses of a machine.
abbrev pub address_set : Text → Machine → List Text
address_set node_name machine = node_name ∷ map (λ a. a.address) machine.addresses

-- The loops over the alternative names, of which empty ones are skipped.
unfoldable pub are_known : (Text → Text) → List Text → List Text → Bool
unfolding has_text
are_known print known [] = true
are_known print known (name ∷ names) =
    let later = are_known print known names in
    if length name == 0 then later else if not (has_text (print name) known) then false else later

unfoldable pub validate_organization : List Text → Result {0} Unit
unfolding text_eq
validate_organization (o ∷ []) =
    if text_eq o node_group then ok tt else err (message "organization doesn't match node group")
validate_organization [] = err (message "expected only one organization")
validate_organization (o ∷ p ∷ l) = err (message "expected only one organization")

-- The first machine with a node of that name.
unfoldable pub find_machine : Text → List Machine → Option Machine
unfolding text_eq
find_machine node_name [] = none
find_machine node_name (machine ∷ machines) =
    let later = find_machine node_name machines in
    elim machine.node_ref [
      | none ↦ later
      | some name ↦ if text_eq name node_name then some machine else later
    ]

-- `ok none` is a machine that is not found without an error, which the source provides for.
unfoldable pub get_machine_for_node :
    Text → List Machine → Api Request → Result (Option Machine) × Api Request
unfolding ask find_machine
get_machine_for_node node_name machines s =
    let (e, s') = ask s in
    elim e [
      | some why ↦ (err (message "failed to list all machine objects"), s')
      | none ↦ elim (find_machine node_name machines) [
        | some machine ↦ (ok (some machine), s')
        | none ↦ (err (message "failed to get machine for given node name"), s')
      ]
    ]

abbrev pub is_approved : List RequestConditionType → Bool
is_approved [] = false
is_approved (certificate_approved ∷ rest) = true
is_approved (other_request_condition t ∷ rest) = is_approved rest

abbrev pub approve : Csr → Csr
approve csr = record csr {
  request_conditions = csr.request_conditions ++ (certificate_approved ∷ []);
}

unfoldable pub approve_csr : Csr → Api Request → Result {0} Unit × Api Request
unfolding send
approve_csr csr s =
    let (e, s') = send (update_approval (approve csr)) s in
    elim e [ none ↦ (ok tt, s') | some why ↦ (err (message "failed to approve CSR"), s') ]

module _ (x : Library) where
  unfoldable pub validate_x509_csr : Csr → CertificateRequest → Machine → Result {0} Unit
  unfolding text_eq are_known validate_organization
  validate_x509_csr csr cert machine =
      if not (text_eq cert.common_name csr.username)
      then err (message "commonName is different then CSR username")
      else elim (validate_organization cert.organization) [
        | err e ↦ err e
        | ok u ↦ elim (deref machine.node_ref) [
          | err e ↦ err e
          | ok node_name ↦
              if not (are_known (λ dns. dns) (address_set node_name machine) cert.dns_names)
              then err (message "dns name cannot be associated with node")
              else if not (
                  are_known (λ ip. x.ip_string ip) (address_set node_name machine)
                    cert.ip_addresses)
              then err (message "ip address cannot be associated with node")
              else ok tt
        ]
      ]

  -- The certificate request in the bytes of a request.
  unfoldable pub parse_request : Text → Result CertificateRequest
  parse_request bytes =
      let (block, rest) = x.pem_decode bytes in
      elim block [
        | none ↦ err (message "no certificate request found for the given CSR")
        | some body ↦
            if not (length rest == 0)
            then err (message "found more than one PEM encoded block in the result")
            else elim (x.parse_certificate_request body) [
              | none ↦ err (message "the error of the parser")
              | some cert ↦ ok cert
            ]
      ]

  -- What is checked once the machine is known.
  unfoldable pub check_certificate : Csr → Machine → Result {0} Unit
  unfolding parse_request validate_x509_csr
  check_certificate csr machine = elim (parse_request csr.request) [
    | err e ↦ err e
    | ok cert ↦ elim (validate_x509_csr csr cert machine) [
      | err e ↦ err (message "error validating the x509 certificate request")
      | ok u ↦ ok tt
    ]
  ]

  -- `machines` is what the list of all machines gives.
  unfoldable pub reconcile : List Machine → Csr → Api Request → Result {0} Unit × Api Request
  unfolding ask validate_csr_object get_machine_for_node check_certificate approve_csr
  reconcile machines csr s =
      let (e, s₁) = ask s in
      elim e [
        | some not_found ↦ (ok tt, s₁)
        | some why ↦ (err (api why), s₁)
        | none ↦
            if is_approved csr.request_conditions
            then (ok tt, s₁)
            else elim (validate_csr_object csr) [
              | err why ↦ (ok tt, s₁)
              | ok node_name ↦
                  let (found, s₂) = get_machine_for_node node_name machines s₁ in
                  elim found [
                    | err why ↦ (err (message "failed to get machine for node"), s₂)
                    | ok none ↦ (err (message "no machine found for given node"), s₂)
                    | ok (some machine) ↦ elim (check_certificate csr machine) [
                      | err why ↦ (err why, s₂)
                      | ok u ↦ approve_csr csr s₂
                    ]
                  ]
            ]
      ]
