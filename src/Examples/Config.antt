-- ===== src/Examples/Config.antt =====
-- Configuration variables.
use machine_controller_k0s.Prelude.{
  ◌≡◌, refl, arith, All, ◌==◌, ◌&&◌, ◌∷◌, ◌++◌, [], Bool, true, false, Option, some, none,
  if◌then◌else◌,
}
use machine_controller_k0s.Prelude.Decimal.{Text, codes, text_eq}
use machine_controller_k0s.Api.{Result, ok, err, message, ◌>>=◌}
use machine_controller_k0s.ProviderConfig.{
  KeySelector, ConfigVarBool, Encoding, quote, is_plain, no_string, no_bool, no_selector,
  marshal_config_var_string,
}
use machine_controller_k0s.ProviderConfig.RoundTrip.{
  string_to_json, string_of_json, bool_to_json, bool_of_json, unmarshal-marshal,
}
use machine_controller_k0s.ProviderConfig.Resolver.{
  Sources, get_config_var_bool_value, get_config_var_bool_value_or_env,
}
use machine_controller_k0s.ProviderConfig.Fallback.{get_config_var_bool_value_plain}

abbrev formatted : Bool → Text
formatted true = codes "true"
formatted false = codes "false"

abbrev read : Text → Option Bool
read t =
    if text_eq t (codes "true")
    then some true
    else if text_eq t (codes "false")
    then some false
    else none

pub parsed_true : read (codes "true") ≡ some true
unfolding text_eq
parsed_true = refl

pub parsed_false : read (codes "false") ≡ some false
unfolding text_eq
parsed_false = refl

-- JSON texts of plain characters, and whatever is no text.
abbrev closes : Text → Bool
closes [] = false
closes (c ∷ []) = c == quote
closes (c ∷ d ∷ rest) = is_plain c && closes (d ∷ rest)

abbrev accepts : Text → Bool
accepts [] = false
accepts (c ∷ rest) = if c == quote then closes rest else true

abbrev accept : Text → Result Text
accept t = if accepts t then ok t else err (message "invalid character")

closes_plain : (t : Text) → All (λ c. is_plain c ≡ true) t → closes (t ++ quote ∷ []) ≡ true
closes_plain [] h = refl
closes_plain (c ∷ []) h = ground (arith, h.0)
closes_plain (c ∷ d ∷ t) h = ground (arith, h.0, closes_plain (d ∷ t) h.1)

pub accept_plain :
    (t : Text)
    → All (λ c. is_plain c ≡ true) t
    → accept (quote ∷ t ++ quote ∷ []) ≡ ok (quote ∷ t ++ quote ∷ [])
accept_plain t h = rw (closes_plain t h) refl

abbrev pub encoding : Encoding
encoding = record {
  marshal_selector = λ ref. ok ref.ref_key;
  unmarshal_string = λ t. ok no_string;
  unmarshal_bool = λ t. ok no_bool;
  unmarshal_config = λ t. err (message "invalid");
  compact = accept;
  scan_value = accept;
  compact_plain = accept_plain;
  scan_value_plain = accept_plain;
  compact_true = refl;
  compact_false = refl;
  scan_value_true = refl;
  scan_value_false = refl;
  format_bool = formatted;
  parse_bool = read;
  format_bool_true = refl;
  format_bool_false = refl;
  parse_bool_true = parsed_true;
  parse_bool_false = parsed_false;
}

abbrev config_key : KeySelector
config_key = record {
  ref_namespace = codes "kube-system";
  ref_name = codes "settings";
  ref_key = codes "flag";
  other_fields = [];
}

-- A value in a config map, where the plain value is the zero value.
abbrev flag : ConfigVarBool
flag = record { is_set = false; secret_key_ref = no_selector; config_map_key_ref = config_key }

abbrev sources : Sources
sources = record {
  secret = λ namespace name. err (message "not found");
  config_map = λ namespace name. ok (λ key. some (codes "true"));
  environment = λ name. some (codes "true");
}

name_plain : All (λ c. is_plain c ≡ true) (codes "eu-west 1")
name_plain = ground arith

unmarshal-marshal_example :
    (string_to_json encoding (record no_string { value = codes "eu-west 1" })
        >>= (λ json. string_of_json encoding no_string json)
      ≡ ok (record no_string { value = codes "eu-west 1" }))
    × (bool_to_json encoding (record no_bool { is_set = true })
          >>= (λ json. bool_of_json encoding no_bool json)
        ≡ ok (record no_bool { is_set = true }))
unmarshal-marshal_example =
    unmarshal-marshal encoding (codes "eu-west 1") true no_string no_bool name_plain

-- A value with a quote is refused.
quoted_refused :
    string_to_json encoding (record no_string { value = codes "a\"b" })
    ≡ err (message "invalid character")
unfolding marshal_config_var_string
quoted_refused = refl

get_config_var_bool_value_plain_example :
    (get_config_var_bool_value sources encoding flag ≡ ok false)
    × (get_config_var_bool_value_or_env sources encoding flag (codes "FLAG") ≡ ok false)
get_config_var_bool_value_plain_example =
    get_config_var_bool_value_plain sources encoding flag (codes "FLAG") refl
