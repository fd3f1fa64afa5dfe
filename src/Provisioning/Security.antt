-- ===== src/Provisioning/Security.antt =====
-- common/sastoken.py and provisioning/security/sk_security_client.py, on code points. Time is in
-- milliseconds. `sign` is the HMAC of a key and a message, `none` where it raises; `quote_plus` is
-- urllib's.
use azure_iot_sdk_python_pre.Prelude.{
  ℕ, ◌+◌, ◌*◌, Bool, true, false, Option, none, some, [], ◌∷◌, ◌++◌, if◌then◌else◌,
}
use Prim.Native.Nat.{◌/◌}
use azure_iot_sdk_python_pre.Text.{Text, codes}
use azure_iot_sdk_python_pre.Text.Decimal.{decimal}
use azure_iot_sdk_python_pre.Auth.Token.{token_text}
pub mod Renewed

pub record Signer : Type 0 where
  pub sign : Text → Text → Option Text
  pub quote_plus : Text → Text

pub record SasToken : Type 0 where
  pub uri : Text
  pub key : Text
  pub key_name : Option Text
  pub ttl : ℕ
  pub expiry_time : ℕ
  pub token : Text

pub record SymmetricKeySecurityClient : Type 0 where
  pub provisioning_host : Text
  pub registration_id : Text
  pub id_scope : Text
  pub symmetric_key : Text
  pub sas_token : Option SasToken

module _ (env : Signer) where
  -- `_build_token`, from the attributes that it reads
  unfoldable pub build_token : Text → Text → Option Text → ℕ → Option Text
  unfolding token_text
  build_token uri key key_name expiry_time =
      elim (env.sign key (uri ++ (10 ∷ decimal expiry_time))) [
        | none ↦ none
        | some signature ↦ some (token_text uri signature expiry_time key_name)
      ]

  -- The token after `refresh`, and whether it returned; a failure leaves the new expiry time.
  unfoldable pub refresh : ℕ → SasToken → SasToken × Bool
  unfolding build_token
  refresh now t =
      let expiry_time = (now + t.ttl * 1000) / 1000 in
      elim (build_token t.uri t.key t.key_name expiry_time) [
        | none ↦ (record t { expiry_time = expiry_time }, false)
        | some token ↦ (record t { expiry_time = expiry_time; token = token }, true)
      ]

  -- `SasToken.__init__`, which refreshes; no object is made if that raises.
  unfoldable pub new_token : ℕ → Text → Text → Option Text → ℕ → Option SasToken
  unfolding refresh
  new_token now uri key key_name ttl =
      let (t, ok) = refresh now (record {
        uri = env.quote_plus uri;
        key = key;
        key_name = key_name;
        ttl = ttl;
        expiry_time = 0;
        token = [];
      }) in
      if ok then some t else none

  unfoldable pub create_shared_access_signature : ℕ → SymmetricKeySecurityClient → Option SasToken
  unfolding new_token codes
  create_shared_access_signature now c =
      new_token now (c.id_scope ++ (codes "/registrations/" ++ c.registration_id)) c.symmetric_key
        (some (codes "registration")) 3600

  -- The client afterwards, and the text, `none` if an error is raised.
  unfoldable pub get_current_sas_token :
      ℕ → SymmetricKeySecurityClient → SymmetricKeySecurityClient × Option Text
  unfolding create_shared_access_signature refresh
  get_current_sas_token now c = elim c.sas_token [
    | none ↦ elim (create_shared_access_signature now c) [
      | none ↦ (c, none)
      | some t ↦ (record c { sas_token = some t }, some t.token)
    ]
    | some t ↦
        let (next, ok) = refresh now t in
        (record c { sas_token = some next }, if ok then some next.token else none)
  ]
