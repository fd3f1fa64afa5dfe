-- ===== src/Auth/Token.antt =====
-- The SAS token of `BaseRenewableTokenAuthenticationProvider`
-- (iothub/auth/base_renewable_token_authentication_provider.py).
use azure_iot_sdk_python_pre.Prelude.{ℕ, Option, none, some, [], ◌∷◌, ◌++◌}
use azure_iot_sdk_python_pre.Text.{Text, codes}
use azure_iot_sdk_python_pre.Text.Decimal.{decimal}

-- An optional text in a test: `None` and the empty text are false.
unfoldable pub given : Option Text → Option Text
given none = none
given (some []) = none
given (some (c ∷ s)) = some (c ∷ s)

unfoldable pub resource_uri : Text → Text → Option Text → Text
unfolding codes given
resource_uri hostname device_id module_id =
    let device = hostname ++ (codes "/devices/" ++ device_id) in
    elim (given module_id) [
      | none ↦ device
      | some m ↦ hostname ++ (codes "/devices/" ++ (device_id ++ (codes "/modules/" ++ m)))
    ]

-- `_device_keyname_token_format` and `_device_token_format`
unfoldable pub token_text : Text → Text → ℕ → Option Text → Text
unfolding codes given
token_text quoted_resource_uri signature expiry shared_access_key_name =
    codes "SharedAccessSignature sr="
    ++ (quoted_resource_uri
        ++ (codes "&sig="
            ++ (signature
                ++ (codes "&se=" ++ (elim (given shared_access_key_name) [
                  | none ↦ decimal expiry
                  | some name ↦ decimal expiry ++ (codes "&skn=" ++ name)
                ])))))

-- What the providers sign.
unfoldable pub string_to_sign : Text → ℕ → Text
string_to_sign quoted_resource_uri expiry = quoted_resource_uri ++ (10 ∷ decimal expiry)
