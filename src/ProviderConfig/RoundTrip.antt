-- ===== src/ProviderConfig/RoundTrip.antt =====
-- Plain values read back: pkg/providerconfig/types/types.go.
use machine_controller_k0s.Prelude.{
  ◌≡◌, refl, All, [], ◌∷◌, ◌++◌, true, false, Bool, has_prefix, trim_prefix, trim_last_append,
}
use machine_controller_k0s.Prelude.Decimal.{Text, codes}
use machine_controller_k0s.Api.{ok, Result, ◌>>=◌}
use machine_controller_k0s.ProviderConfig.{
  ConfigVarString, ConfigVarBool, Encoding, is_plain, no_string, no_bool, marshal_config_var_string,
  unmarshal_config_var_string, marshal_config_var_bool, unmarshal_config_var_bool,
}

module _ (x : Encoding) where
  unmarshal_quoted :
      (old : ConfigVarString) (t : Text)
      → unmarshal_config_var_string x old (b'"' ∷ t ++ b'"' ∷ []) ≡ ok (record old { value = t })
  unfolding unmarshal_config_var_string has_prefix trim_prefix
  unmarshal_quoted old t = rw (trim_last_append t b'"') refl

  unmarshal_true :
      (old : ConfigVarBool)
      → unmarshal_config_var_bool x old (codes "true") ≡ ok (record old { is_set = true })
  unfolding unmarshal_config_var_bool has_prefix
  unmarshal_true old = rw x.parse_bool_true refl

  unmarshal_false :
      (old : ConfigVarBool)
      → unmarshal_config_var_bool x old (codes "false") ≡ ok (record old { is_set = false })
  unfolding unmarshal_config_var_bool has_prefix
  unmarshal_false old = rw x.parse_bool_false refl

  -- `json.Marshal` and `json.Unmarshal` on a text variable and on a Boolean one.
  abbrev pub string_to_json : ConfigVarString → Result Text
  string_to_json v = marshal_config_var_string x v >>= (λ b. x.compact b)

  abbrev pub string_of_json : ConfigVarString → Text → Result ConfigVarString
  string_of_json old json = x.scan_value json >>= (λ b. unmarshal_config_var_string x old b)

  abbrev pub bool_to_json : ConfigVarBool → Result Text
  bool_to_json v = marshal_config_var_bool x v >>= (λ b. x.compact b)

  abbrev pub bool_of_json : ConfigVarBool → Text → Result ConfigVarBool
  bool_of_json old json = x.scan_value json >>= (λ b. unmarshal_config_var_bool x old b)

  formatted-bool_of_json :
      (old : ConfigVarBool) (b : Bool)
      → x.compact (x.format_bool b) >>= (λ json. bool_of_json old json)
        ≡ ok (record old { is_set = b })
  formatted-bool_of_json old true =
      rw x.format_bool_true (rw x.compact_true (rw x.scan_value_true (unmarshal_true old)))
  formatted-bool_of_json old false =
      rw x.format_bool_false (rw x.compact_false (rw x.scan_value_false (unmarshal_false old)))

  -- Through `encoding/json`, a text variable of plain characters and a Boolean variable, both
  -- without references, read back from the JSON that they are written to; the references of the
  -- variable that is read into stay.
  pub unmarshal-marshal :
      (t : Text) (b : Bool) (old : ConfigVarString) (old_bool : ConfigVarBool)
      → All (λ c. is_plain c ≡ true) t
      → (string_to_json (record no_string { value = t }) >>= (λ json. string_of_json old json)
          ≡ ok (record old { value = t }))
        × (bool_to_json (record no_bool { is_set = b }) >>= (λ json. bool_of_json old_bool json)
            ≡ ok (record old_bool { is_set = b }))
  unfolding marshal_config_var_string marshal_config_var_bool
  unmarshal-marshal t b old old_bool plain = (
    rw (x.compact_plain t plain) (rw (x.scan_value_plain t plain) (unmarshal_quoted old t)),
    formatted-bool_of_json old_bool b,
  )
