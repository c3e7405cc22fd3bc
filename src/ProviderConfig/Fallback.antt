-- ===== src/ProviderConfig/Fallback.antt =====
-- Where a configuration variable gets its value from: pkg/providerconfig/types.go.
use machine_controller_k0s.Prelude.{◌≡◌, refl, true, false, Bool, arith}
use machine_controller_k0s.Prelude.Decimal.{Text}
use machine_controller_k0s.Api.{ok}
use machine_controller_k0s.ProviderConfig.{ConfigVarBool, Encoding}
use machine_controller_k0s.ProviderConfig.Resolver.{
  Sources, is_complete, get_config_var_string_value, get_config_var_bool_value,
  get_config_var_bool_value_or_env,
}

module _ (src : Sources) (x : Encoding) where
  plain_value :
      (b : Bool) (env_name : Text) (v : ConfigVarBool)
      → v.is_set ≡ b
      → is_complete v.secret_key_ref ≡ false
      → (get_config_var_bool_value src x v ≡ ok b)
        × (get_config_var_bool_value_or_env src x v env_name ≡ ok b)
  unfolding get_config_var_bool_value get_config_var_bool_value_or_env get_config_var_string_value
  plain_value true env_name v e h = ground (arith, e, h, x.format_bool_true, x.parse_bool_true)
  plain_value false env_name v e h = ground (arith, e, h, x.format_bool_false, x.parse_bool_false)

  -- A Boolean variable without a complete reference to a secret has its plain value, whatever its
  -- reference to a config map and the environment say.
  pub get_config_var_bool_value_plain :
      (v : ConfigVarBool) (env_name : Text)
      → is_complete v.secret_key_ref ≡ false
      → (get_config_var_bool_value src x v ≡ ok v.is_set)
        × (get_config_var_bool_value_or_env src x v env_name ≡ ok v.is_set)
  get_config_var_bool_value_plain v env_name h = plain_value v.is_set env_name v refl h
