-- ===== src/Certificates/Checks.antt =====
-- The checks of a request and of its certificate request: pkg/controller/nodecsrapprover/node_csr_approver.go.
use machine_controller_k0s.Prelude.{
  has_prefix-append, trim_prefix-append, has_text_of_IsAmong, ◌∙◌, sym, ap, ◌↔◌, ◌≤◌, ◌≡◌, ◌≢◌,
  refl, ◌⊎◌, inl, inr, List, [], ◌∷◌, ◌++◌, none, some, true, arith, length, Option-cases, IsAmong,
  has_prefix, trim_prefix, trim_prefix_lem, has_text, has_text-IsAmong, All,
}
use machine_controller_k0s.Prelude.Decimal.{Text, text_eq, text_eq_iff}
use machine_controller_k0s.Api.{ok, err, Error, Result-cases}
use machine_controller_k0s.Objects.{Machine}
use machine_controller_k0s.Certificates.{
  KeyUsage, Csr, CertificateRequest, Library, node_user_prefix, node_group, authenticated_group,
  allowed_usages, is_usage_in_usage_list, are_usages_allowed, validate_csr_object,
  validate_organization, address_set, are_known, validate_x509_csr, parse_request,
  check_certificate,
}

abbrev IsAllowed : KeyUsage → Type 0
IsAllowed usage = is_usage_in_usage_list usage allowed_usages ≡ true

abbrev IsKnown : (Text → Text) → List Text → Text → Type 0
IsKnown print known name = (name ≡ []) ⊎ IsAmong (print name) known

-- The request of a node, with both groups of nodes and three usages of a server.
abbrev pub IsNodeRequest : Text → Csr → Type 0
IsNodeRequest node csr =
    (csr.username ≡ node_user_prefix ++ node)
    × (node ≢ [])
    × IsAmong node_group csr.groups
    × IsAmong authenticated_group csr.groups
    × (length csr.usages ≡ 3)
    × All IsAllowed csr.usages

-- The certificate is for the same user, and for no DNS name or IP address but those of the machine;
-- its email addresses and URIs are not looked at.
abbrev pub IsFor : (Text → Text) → Text → Csr → Machine → CertificateRequest → Type 0
IsFor print node csr machine cert =
    (cert.common_name ≡ csr.username)
    × (cert.organization ≡ node_group ∷ [])
    × All (IsKnown (λ dns. dns) (address_set node machine)) cert.dns_names
    × All (IsKnown print (address_set node machine)) cert.ip_addresses

are_usages_allowed-All :
    (usages : List KeyUsage) → are_usages_allowed usages ≡ true → All IsAllowed usages
unfolding are_usages_allowed
are_usages_allowed-All [] h = tt
are_usages_allowed-All (u ∷ usages) h =
    (ground (arith, h), are_usages_allowed-All usages (ground (arith, h)))

are_known-All :
    (print : Text → Text) (known names : List Text)
    → are_known print known names ≡ true
    → All (IsKnown print known) names
unfolding are_known
are_known-All print known [] h = tt
are_known-All print known ([] ∷ names) h = (inl refl, are_known-All print known names h)
are_known-All print known ((c ∷ name) ∷ names) h = (
  inr (has_text-IsAmong (print (c ∷ name)) known (ground (arith, h))),
  are_known-All print known names (ground (arith, h)),
)

validate_csr_object_steps :
    (csr : Csr) (node : Text)
    → validate_csr_object csr ≡ ok node
    → (node ≡ trim_prefix csr.username node_user_prefix)
      × (has_prefix csr.username node_user_prefix ≡ true)
      × (node ≢ [])
      × (has_text node_group csr.groups ≡ true)
      × (has_text authenticated_group csr.groups ≡ true)
      × (length csr.usages ≡ 3)
      × (are_usages_allowed csr.usages ≡ true)
unfolding validate_csr_object
validate_csr_object_steps csr node h = ground arith

pub validate_csr_object-IsNodeRequest :
    (csr : Csr) (node : Text) → validate_csr_object csr ≡ ok node → IsNodeRequest node csr
validate_csr_object-IsNodeRequest csr node h =
    let (same, starts, named, g, a, three, allowed) = validate_csr_object_steps csr node h in
    (
      ground (arith, trim_prefix_lem csr.username node_user_prefix starts, same),
      named,
      has_text-IsAmong node_group csr.groups g,
      has_text-IsAmong authenticated_group csr.groups a,
      three,
      are_usages_allowed-All csr.usages allowed,
    )

organization_lem : (l : List Text) → validate_organization l ≡ ok tt → l ≡ node_group ∷ []
unfolding validate_organization
organization_lem [] h = ground (arith, h)
organization_lem (o ∷ []) h = ground (arith, text_eq_iff o node_group, h)
organization_lem (o ∷ p ∷ l) h = ground (arith, h)

validate_x509_csr_steps :
    (x : Library) (csr : Csr) (cert : CertificateRequest) (machine : Machine) (node : Text)
    → machine.node_ref ≡ some node
    → validate_x509_csr x csr cert machine ≡ ok tt
    → (text_eq cert.common_name csr.username ≡ true)
      × (validate_organization cert.organization ≡ ok tt)
      × (are_known (λ dns. dns) (address_set node machine) cert.dns_names ≡ true)
      × (are_known x.ip_string (address_set node machine) cert.ip_addresses ≡ true)
unfolding validate_x509_csr
validate_x509_csr_steps x csr cert machine node h k = ground arith

are_usages_allowed_of_All :
    (usages : List KeyUsage) → All IsAllowed usages → are_usages_allowed usages ≡ true
unfolding are_usages_allowed
are_usages_allowed_of_All [] h = refl
are_usages_allowed_of_All (u ∷ usages) h = ground (arith, h.0, are_usages_allowed_of_All usages h.1)

-- Two different groups are at least two groups.
length_of_two : (g a : Text) (l : List Text) → g ≢ a → IsAmong g l → IsAmong a l → 2 ≤ length l
length_of_two g a [] d h k = absurd h
length_of_two g a (u ∷ []) d (inl h) (inl k) = absurd (d (h ∙ sym k))
length_of_two g a (u ∷ []) d (inr h) k = absurd h
length_of_two g a (u ∷ []) d (inl h) (inr k) = absurd k
length_of_two g a (u ∷ v ∷ l) d h k = ground arith

groups_differ : node_group ≢ authenticated_group
groups_differ = ground arith

validate_csr_object_back :
    (csr : Csr) (node : Text)
    → trim_prefix csr.username node_user_prefix ≡ node
    → has_prefix csr.username node_user_prefix ≡ true
    → node ≢ []
    → 2 ≤ length csr.groups
    → has_text node_group csr.groups ≡ true
    → has_text authenticated_group csr.groups ≡ true
    → length csr.usages ≡ 3
    → are_usages_allowed csr.usages ≡ true
    → validate_csr_object csr ≡ ok node
unfolding validate_csr_object
validate_csr_object_back csr node same starts named two g a three allowed = ground arith

validate_csr_object_of_IsNodeRequest :
    (csr : Csr) (node : Text) → IsNodeRequest node csr → validate_csr_object csr ≡ ok node
validate_csr_object_of_IsNodeRequest csr node (user, named, g, a, three, allowed) =
    validate_csr_object_back csr node
      (ap (λ u. trim_prefix u node_user_prefix) user ∙ trim_prefix-append node_user_prefix node)
      (ap (λ u. has_prefix u node_user_prefix) user ∙ has_prefix-append node_user_prefix node) named
      (length_of_two node_group authenticated_group csr.groups groups_differ g a)
      (has_text_of_IsAmong node_group csr.groups g)
      (has_text_of_IsAmong authenticated_group csr.groups a) three
      (are_usages_allowed_of_All csr.usages allowed)

-- A request is taken for that of a node exactly if its user is the prefix of nodes and the name of
-- the node, which is not empty, both groups are among its groups, and its usages are three allowed
-- ones.
pub validate_csr_object_iff :
    (csr : Csr) (node : Text) → (validate_csr_object csr ≡ ok node) ↔ IsNodeRequest node csr
validate_csr_object_iff csr node =
    (validate_csr_object-IsNodeRequest csr node, validate_csr_object_of_IsNodeRequest csr node)

-- The bytes are one PEM block with that certificate request.
abbrev pub Holds : Library → Text → CertificateRequest → Type 0
Holds x bytes cert =
    (body : Text) × ((x.pem_decode bytes).0 ≡ some body)
    × ((x.pem_decode bytes).1 ≡ [])
    × (x.parse_certificate_request body ≡ some cert)

parse_request_steps :
    (x : Library) (bytes body : Text) (cert : CertificateRequest)
    → (x.pem_decode bytes).0 ≡ some body
    → parse_request x bytes ≡ ok cert
    → ((x.pem_decode bytes).1 ≡ []) × (x.parse_certificate_request body ≡ some cert)
unfolding parse_request
parse_request_steps x bytes body cert e h = ground arith

parse_request_fails :
    (x : Library) (bytes : Text) (cert : CertificateRequest)
    → (x.pem_decode bytes).0 ≡ none
    → parse_request x bytes ≢ ok cert
unfolding parse_request
parse_request_fails x bytes cert e h = ground arith

parse_request-Holds :
    (x : Library) (bytes : Text) (cert : CertificateRequest)
    → parse_request x bytes ≡ ok cert
    → Holds x bytes cert
parse_request-Holds x bytes cert h = elim (Option-cases (x.pem_decode bytes).0) [
  | inl e ↦ absurd (parse_request_fails x bytes cert e h)
  | inr (body, e) ↦
      let (alone, parsed) = parse_request_steps x bytes body cert e h in (body, e, alone, parsed)
]

-- Some certificate request in the bytes is for the machine.
abbrev pub IsCertified : Library → Text → Csr → Machine → Type 0
IsCertified x node csr machine =
    (cert : CertificateRequest) × Holds x csr.request cert × IsFor x.ip_string node csr machine cert

check_certificate_steps :
    (x : Library) (csr : Csr) (machine : Machine) (cert : CertificateRequest)
    → parse_request x csr.request ≡ ok cert
    → check_certificate x csr machine ≡ ok tt
    → validate_x509_csr x csr cert machine ≡ ok tt
unfolding check_certificate
check_certificate_steps x csr machine cert e h = ground arith

check_certificate_fails :
    (x : Library) (csr : Csr) (machine : Machine) (why : Error)
    → parse_request x csr.request ≡ err why
    → check_certificate x csr machine ≢ ok tt
unfolding check_certificate
check_certificate_fails x csr machine why e h = ground arith

pub check_certificate-IsCertified :
    (x : Library) (node : Text) (csr : Csr) (machine : Machine)
    → machine.node_ref ≡ some node
    → check_certificate x csr machine ≡ ok tt
    → IsCertified x node csr machine
check_certificate-IsCertified x node csr machine named h =
    elim (Result-cases (parse_request x csr.request)) [
      | inr (why, e) ↦ absurd (check_certificate_fails x csr machine why e h)
      | inl (cert, e) ↦
          let (user, organized, dns, ips) =
            validate_x509_csr_steps x csr cert machine node named
              (check_certificate_steps x csr machine cert e h) in
          (
            cert,
            parse_request-Holds x csr.request cert e,
            (
              (text_eq_iff cert.common_name csr.username).0 user,
              organization_lem cert.organization organized,
              are_known-All (λ dns. dns) (address_set node machine) cert.dns_names dns,
              are_known-All x.ip_string (address_set node machine) cert.ip_addresses ips,
            ),
          )
    ]
