-- ===== src/ProviderConfig.antt =====
-- The configuration of a provider and its JSON: pkg/providerconfig/types/types.go.
pub mod RoundTrip
pub mod Resolver
pub mod Fallback
use machine_controller_k0s.Prelude.{
  ℕ, ◌≡◌, ◌||◌, ltb, leb, All, List, [], ◌∷◌, ◌++◌, Option, none, some, Bool, true, false, not,
  ◌&&◌, ◌==◌, length, if◌then◌else◌, has_prefix, trim_prefix, trim_last,
}
use machine_controller_k0s.Prelude.Decimal.{Text, codes}
use machine_controller_k0s.Api.{Error, message, Result, ok, err, ◌>>=◌}

-- `GlobalObjectKeySelector`; `other_fields` are those of `ObjectReference` that the code does not
-- name.
pub record KeySelector : Type 0 where
  pub ref_namespace : Text
  pub ref_name : Text
  pub ref_key : Text
  pub other_fields : List Text

pub record ConfigVarString : Type 0 where
  pub value : Text
  pub secret_key_ref : KeySelector
  pub config_map_key_ref : KeySelector

pub record ConfigVarBool : Type 0 where
  pub is_set : Bool
  pub secret_key_ref : KeySelector
  pub config_map_key_ref : KeySelector

pub record NetworkConfig : Type 0 where
  pub cidr : Text
  pub gateway : Text
  pub servers : List Text

pub record Config : Type 0 where
  pub ssh_public_keys : List Text
  pub cloud_provider : Text
  pub cloud_provider_spec : Text
  pub operating_system : Text
  pub operating_system_spec : Text
  pub network : Option NetworkConfig
  pub overwrite_cloud_config : Option Text

abbrev pub quote : ℕ
quote = b'"'

-- A printable character of ASCII that JSON writes as it is: no quote, no backslash, and none of the
-- three that `encoding/json` escapes for HTML.
abbrev pub is_plain : ℕ → Bool
is_plain c =
    leb 32 c && ltb c 127 && not (c == quote || c == b'\\' || c == b'<' || c == b'>' || c == b'&')

-- Go's library: `encoding/json` on the structs and around the methods of the variables, and
-- `strconv`.
pub record Encoding : Type 0 where
  pub marshal_selector : KeySelector → Result Text
  pub unmarshal_string : Text → Result ConfigVarString
  pub unmarshal_bool : Text → Result ConfigVarBool
  pub unmarshal_config : Text → Result Config
  -- what `json.Marshal` makes of the bytes of a method `MarshalJSON`: an error if they are not JSON,
  -- and otherwise the compact form, with some characters escaped
  pub compact : Text → Result Text
  -- the bytes of the value that `json.Unmarshal` gives to a method `UnmarshalJSON`, or an error if
  -- they are not JSON
  pub scan_value : Text → Result Text
  pub compact_plain :
      (t : Text)
      → All (λ c. is_plain c ≡ true) t
      → compact (quote ∷ t ++ quote ∷ []) ≡ ok (quote ∷ t ++ quote ∷ [])
  pub scan_value_plain :
      (t : Text)
      → All (λ c. is_plain c ≡ true) t
      → scan_value (quote ∷ t ++ quote ∷ []) ≡ ok (quote ∷ t ++ quote ∷ [])
  pub compact_true : compact (codes "true") ≡ ok (codes "true")
  pub compact_false : compact (codes "false") ≡ ok (codes "false")
  pub scan_value_true : scan_value (codes "true") ≡ ok (codes "true")
  pub scan_value_false : scan_value (codes "false") ≡ ok (codes "false")
  -- `strconv.FormatBool`, and `%v` for a Boolean value
  pub format_bool : Bool → Text
  pub parse_bool : Text → Option Bool
  pub format_bool_true : format_bool true ≡ codes "true"
  pub format_bool_false : format_bool false ≡ codes "false"
  pub parse_bool_true : parse_bool (codes "true") ≡ some true
  pub parse_bool_false : parse_bool (codes "false") ≡ some false

abbrev pub is_text_empty : Text → Bool
is_text_empty t = length t == 0

abbrev pub is_ref_empty : KeySelector → Bool
is_ref_empty ref =
    is_text_empty ref.ref_namespace && is_text_empty ref.ref_name && is_text_empty ref.ref_key

abbrev pub no_selector : KeySelector
no_selector = record { ref_namespace = []; ref_name = []; ref_key = []; other_fields = [] }

-- The zero values.
abbrev pub no_string : ConfigVarString
no_string = record { value = []; secret_key_ref = no_selector; config_map_key_ref = no_selector }

abbrev pub no_bool : ConfigVarBool
no_bool = record { is_set = false; secret_key_ref = no_selector; config_map_key_ref = no_selector }

abbrev pub no_config : Config
no_config = record {
  ssh_public_keys = [];
  cloud_provider = [];
  cloud_provider_spec = [];
  operating_system = [];
  operating_system_spec = [];
  network = none;
  overwrite_cloud_config = none;
}

module _ (x : Encoding) where
  -- A member of the object, unless the reference is empty.
  unfoldable pub member : Bool → Text → Text → KeySelector → Result Text
  member empty comma key ref =
      if empty then ok [] else x.marshal_selector ref >>= (λ body. ok (comma ++ key ++ body))

  -- The two references, with a comma between them.
  unfoldable pub references : KeySelector → KeySelector → Result Text
  unfolding member
  references secret config_map =
      let comma = if is_ref_empty secret then [] else codes "," in
      member (is_ref_empty secret) [] (codes "\"secretKeyRef\":") secret >>= (λ front.
        member (is_ref_empty config_map) comma (codes "\"configMapKeyRef\":") config_map
        >>= (λ back. ok (front ++ back)))

  unfoldable pub marshal_config_var_string : ConfigVarString → Result Text
  unfolding references
  marshal_config_var_string v =
      if is_ref_empty v.secret_key_ref && is_ref_empty v.config_map_key_ref
      then ok (quote ∷ v.value ++ quote ∷ [])
      else references v.secret_key_ref v.config_map_key_ref >>= (λ refs. ok (
          codes "{"
          ++ refs
          ++ (if is_text_empty v.value then [] else codes ",\"value\":\"" ++ v.value ++ codes "\"")
          ++ codes "}"))

  -- Into a variable, of which a plain value leaves the references.
  unfoldable pub unmarshal_config_var_string : ConfigVarString → Text → Result ConfigVarString
  unfolding has_prefix trim_prefix trim_last
  unmarshal_config_var_string old b =
      if not (has_prefix b (codes "{"))
      then ok (record old { value = trim_last quote (trim_prefix b (quote ∷ [])) })
      else x.unmarshal_string b

  unfoldable pub marshal_config_var_bool : ConfigVarBool → Result Text
  unfolding references
  marshal_config_var_bool v =
      if is_ref_empty v.secret_key_ref && is_ref_empty v.config_map_key_ref
      then ok (x.format_bool v.is_set)
      else references v.secret_key_ref v.config_map_key_ref >>= (λ refs.
        ok (codes "{" ++ refs ++ codes ",\"value\":" ++ x.format_bool v.is_set ++ codes "}"))

  unfoldable pub unmarshal_config_var_bool : ConfigVarBool → Text → Result ConfigVarBool
  unfolding has_prefix
  unmarshal_config_var_bool old b =
      if not (has_prefix b (codes "{"))
      then elim (x.parse_bool b) [
        | none ↦ err (message "Error converting string to bool")
        | some parsed ↦ ok (record old { is_set = parsed })
      ]
      else x.unmarshal_bool b

  -- `none` is a provider spec without a value; empty bytes are the zero configuration.
  unfoldable pub get_config : Option Text → Result Config
  get_config none = err (message "machine.spec.providerSpec.value is nil")
  get_config (some raw) = if is_text_empty raw then ok no_config else x.unmarshal_config raw
