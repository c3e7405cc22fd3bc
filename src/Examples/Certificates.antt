-- ===== src/Examples/Certificates.antt =====
-- The certificate of the node of a machine.
use machine_controller_k0s.Prelude.{
  ◌≡◌, ◌↔◌, ◌⊎◌, refl, [], ◌∷◌, List, Option, some, none, has_prefix, trim_prefix, has_text,
}
use machine_controller_k0s.Prelude.Decimal.{Text, codes, text_eq}
use machine_controller_k0s.Api.{ok, Api, ask, send}
use machine_controller_k0s.Objects.{Machine, internal_dns}
use machine_controller_k0s.Certificates.{
  Csr, CertificateRequest, Library, Request, update_approval, digital_signature, key_encipherment,
  server_auth, node_group, authenticated_group, validate_csr_object, are_usages_allowed,
  is_usage_in_usage_list, are_known, find_machine, get_machine_for_node, validate_organization,
  validate_x509_csr, parse_request, approve, approve_csr, check_certificate, reconcile,
}
use machine_controller_k0s.Certificates.Checks.{IsNodeRequest, validate_csr_object_iff}
use machine_controller_k0s.Certificates.Trust.{IsTrustworthy, reconcile-IsTrustworthy}
use machine_controller_k0s.Examples.Base.{machine_of}

abbrev certificate : CertificateRequest
certificate = record {
  common_name = codes "system:node:n";
  organization = node_group ∷ [];
  dns_names = codes "n" ∷ [] ∷ [];
  ip_addresses = codes "10" ∷ [];
  email_addresses = [];
  uris = [];
}

abbrev decoded : Text → Option Text × Text
decoded bytes = (some bytes, [])

abbrev library : Library
library = record {
  pem_decode = decoded;
  parse_certificate_request = λ bytes. some certificate;
  ip_string = λ ip. ip;
}

abbrev csr : Csr
csr = record {
  csr_name = codes "csr";
  username = codes "system:node:n";
  groups = authenticated_group ∷ node_group ∷ [];
  usages = server_auth ∷ digital_signature ∷ key_encipherment ∷ [];
  request = codes "pem";
  request_conditions = [];
}

abbrev machines : List Machine
machines =
    machine_of (codes "l") none
    ∷ record (machine_of (codes "m") (some (codes "n"))) {
      addresses = record { address = codes "10"; address_type = internal_dns } ∷ [];
    }
    ∷ []

abbrev quiet : Api Request
quiet = record { answers = []; accepted = [] }

approved : (reconcile library machines csr quiet).1.accepted ≡ update_approval (approve csr) ∷ []
unfolding reconcile ask send validate_csr_object has_prefix trim_prefix has_text are_usages_allowed
    is_usage_in_usage_list text_eq get_machine_for_node find_machine check_certificate parse_request
    validate_x509_csr are_known validate_organization approve_csr
approved = refl

validate_csr_object_iff_example :
    (validate_csr_object csr ≡ ok (codes "n")) ↔ IsNodeRequest (codes "n") csr
validate_csr_object_iff_example = validate_csr_object_iff csr (codes "n")

reconcile-IsTrustworthy_example :
    ((reconcile library machines csr quiet).1.accepted ≡ [])
    ⊎ (IsTrustworthy library machines csr
        × ((reconcile library machines csr quiet).1.accepted ≡ update_approval (approve csr) ∷ []))
reconcile-IsTrustworthy_example = reconcile-IsTrustworthy library machines csr quiet
