-- ===== src/ProviderConfig/Resolver.antt =====
-- The values of configuration variables: pkg/providerconfig/types.go.
use machine_controller_k0s.Prelude.{
  [], Option, none, some, Bool, not, ◌&&◌, ltb, length, if◌then◌else◌,
}
use machine_controller_k0s.Prelude.Decimal.{Text}
use machine_controller_k0s.Api.{message, Result, ok, err, ◌>>=◌}
use machine_controller_k0s.ProviderConfig.{
  KeySelector, ConfigVarString, ConfigVarBool, no_selector, Encoding, is_text_empty,
}

-- What `Get` gives of secrets and of config maps, by namespace and name, as the function from their
-- keys, and the environment of the process.
pub record Sources : Type 0 where
  pub secret : Text → Text → Result (Text → Option Text)
  pub config_map : Text → Text → Result (Text → Option Text)
  pub environment : Text → Option Text

-- All three parts are there.
abbrev pub is_complete : KeySelector → Bool
is_complete ref =
    not (is_text_empty ref.ref_name)
    && not (is_text_empty ref.ref_namespace)
    && not (is_text_empty ref.ref_key)

abbrev key_of : Text → (Text → Option Text) → Result Text
key_of key data_map = elim (data_map key) [ none ↦ err (message "has no key") | some v ↦ ok v ]

abbrev pub read_key : (Text → Text → Result (Text → Option Text)) → KeySelector → Result Text
read_key get ref = elim (get ref.ref_namespace ref.ref_name) [
  | err e ↦ err (message "error retrieving")
  | ok data_map ↦ key_of ref.ref_key data_map
]

module _ (src : Sources) where
  unfoldable pub get_config_var_string_value : ConfigVarString → Result Text
  get_config_var_string_value v =
      if is_complete v.secret_key_ref
      then read_key src.secret v.secret_key_ref
      else if is_complete v.config_map_key_ref
      then read_key src.config_map v.config_map_key_ref
      else ok v.value

  abbrev pub environment_value : Text → Text
  environment_value name = elim (src.environment name) [ none ↦ [] | some t ↦ t ]

  unfoldable pub get_config_var_string_value_or_env : ConfigVarString → Text → Result Text
  unfolding get_config_var_string_value
  get_config_var_string_value_or_env v env_name = elim (get_config_var_string_value v) [
    | err e ↦ ok (environment_value env_name)
    | ok t ↦ if ltb 0 (length t) then ok t else ok (environment_value env_name)
  ]

  module _ (x : Encoding) where
    abbrev parsed : Text → Result Bool
    parsed t = elim (x.parse_bool t) [
      | none ↦ err (message "the error of ParseBool")
      | some b ↦ ok b
    ]

    -- The text variable that stands for a Boolean one.
    abbrev as_string : ConfigVarBool → ConfigVarString
    as_string v = record {
      value = x.format_bool v.is_set;
      secret_key_ref = v.secret_key_ref;
      config_map_key_ref = no_selector;
    }

    unfoldable pub get_config_var_bool_value : ConfigVarBool → Result Bool
    unfolding get_config_var_string_value
    get_config_var_bool_value v = get_config_var_string_value (as_string v) >>= (λ t. parsed t)

    unfoldable pub get_config_var_bool_value_or_env : ConfigVarBool → Text → Result Bool
    unfolding get_config_var_string_value
    get_config_var_bool_value_or_env v env_name =
        get_config_var_string_value (as_string v) >>= (λ t.
          if is_text_empty t
          then elim (src.environment env_name) [
            | none ↦ err (message "all mechanisms of getting the value failed")
            | some env ↦ parsed env
          ]
          else parsed t)
