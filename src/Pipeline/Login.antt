-- ===== src/Pipeline/Login.antt =====
-- With what a client of the hub logs in: from the authentication provider, through
-- `UseAuthProviderStage`, `IoTHubMQTTConverterStage` and `MQTTTransportStage`, to the client library.
use azure_iot_sdk_python_pre.Prelude.{
  String, ◌≡◌, ◌≢◌, refl, eq_iff, str_eq, string_eq, true, false, Option, none, some, arith, inl,
  inr, ◌⊎◌, Option-cases, Bool-cases,
}
use azure_iot_sdk_python_pre.Hub.Topic.{given}
use azure_iot_sdk_python_pre.Mqtt.Transport.{
  Ssl, Trust, default_certs, cadata, Login, trust_of, chain_of, create_ssl_context,
  create_mqtt_client, new_transport, stage_transport, login,
}
use azure_iot_sdk_python_pre.Pipeline.Ops.{
  AuthProvider, Kind, X509, MqttArgs, set_auth_provider, set_x509_auth_provider, set_mqtt_args,
}
use azure_iot_sdk_python_pre.Pipeline.Convert.{
  Env, ConverterState, use_auth_provider, convert, Conversion, delegate, mqtt_args,
}

-- The arguments in the operation that reaches the transport's stage.
abbrev args_in : Conversion → Option MqttArgs
args_in (delegate (set_mqtt_args a)) = some a
args_in _ = none

-- What the client library is given, for the operation of a provider.
unfoldable pub login_of : Ssl → Env → ConverterState → Kind → Option Login
unfolding use_auth_provider convert stage_transport login
login_of ssl env s k = elim (use_auth_provider k) [
  | none ↦ none
  | some k ↦ elim (args_in (convert env s k).1) [
    | none ↦ none
    | some a ↦ elim (stage_transport ssl a) [ none ↦ none | some t ↦ some (login a.sas_token t) ]
  ]
]

-- The gateway, if one is given, or the hub.
abbrev pub host_of : String → Option String → String
host_of hostname gateway = elim (given gateway) [ some g ↦ g | none ↦ hostname ]

-- The trust is in the certificate to trust, if there is one that is not empty, or else in the default
-- certificates.
abbrev pub Trusts : Option String → Trust → Type 0
Trusts ca_cert trust =
    (((ca_cert ≡ none) ⊎ (ca_cert ≡ some "")) × (trust ≡ default_certs))
    ⊎ ((text : String) × (ca_cert ≡ some text) × (text ≢ "") × (trust ≡ cadata text))

-- The library cannot read the certificate to trust, which is not empty, or the client's own chain.
abbrev pub Refuses : Ssl → Option String → Option X509 → Type 0
Refuses ssl ca_cert cert =
    ((text : String) × (ca_cert ≡ some text) × (text ≢ "") × (ssl.loads_cadata text ≡ false))
    ⊎ ((x : X509) × (cert ≡ some x) × (ssl.loads_cert_chain x ≡ false))

-- A login at a host with a password and a chain of certificates, that verifies the server, by its
-- name too, with this trust.
abbrev pub LogsIn : Login → String → Option String → Option X509 → Trust → Type 0
LogsIn l host password cert trust =
    (l.host ≡ host)
    × (l.password ≡ password)
    × (l.client.context.cert_chain ≡ cert)
    × (l.client.context.verify_required ≡ true)
    × (l.client.context.check_hostname ≡ true)
    × (l.client.context.trust ≡ trust)

-- The settings are refused, or there is a login with them.
abbrev pub Tries :
    Ssl → Option String → Option X509 → Option Login → String → Option String → Type 0
Tries ssl ca_cert cert result host password =
    (Refuses ssl ca_cert cert × (result ≡ none))
    ⊎ ((l : Login) × (trust : Trust) × Trusts ca_cert trust
        × (result ≡ some l)
        × LogsIn l host password cert trust)

-- What the context makes of the certificate to trust.
trust_of-cases :
    (ssl : Ssl) (ca_cert : Option String)
    → ((trust_of ssl ca_cert ≡ none)
        × (text : String) × (ca_cert ≡ some text)
        × (text ≢ "")
        × (ssl.loads_cadata text ≡ false))
      ⊎ ((trust : Trust) × (trust_of ssl ca_cert ≡ some trust) × Trusts ca_cert trust)
unfolding trust_of
trust_of-cases ssl none = inr (default_certs, refl, inl (inl refl, refl))
trust_of-cases ssl (some text) = elim (Bool-cases (str_eq text "")) [
  | inl empty ↦ inr (
    default_certs,
    ground (arith, empty),
    inl (inr (ground (arith, empty, eq_iff text "")), refl),
  )
  | inr filled ↦ elim (Bool-cases (ssl.loads_cadata text)) [
    | inl reads ↦ inr (
      cadata text,
      ground (arith, filled, reads),
      inr (text, refl, ground (arith, filled, eq_iff text ""), refl),
    )
    | inr fails ↦
        inl
          (ground (arith, filled, fails), text, refl, ground (arith, filled, eq_iff text ""), fails)
  ]
]

module _ (ssl : Ssl) (env : Env) (s : ConverterState) where
  token-login :
      (a : AuthProvider String)
      → Tries ssl a.ca_cert none
          (login_of ssl env s (set_auth_provider a))
          (host_of a.hostname a.gateway_hostname)
          (some a.credential)
  unfolding login_of use_auth_provider convert mqtt_args stage_transport new_transport
      create_mqtt_client create_ssl_context login chain_of
  token-login a = elim (trust_of-cases ssl a.ca_cert) [
    | inl (e, text, is_text, filled, fails) ↦
        inl (inl (text, is_text, filled, fails), ground (arith, e))
    | inr (t, e, trusts) ↦ elim (Option-cases (login_of ssl env s (set_auth_provider a))) [
      | inl n ↦ absurd (ground (arith, n, e))
      | inr (l, f) ↦ inr (l, t, trusts, f, ground (arith, e, f))
    ]
  ]

  certificate-login :
      (a : AuthProvider X509)
      → Tries ssl a.ca_cert
          (some a.credential)
          (login_of ssl env s (set_x509_auth_provider a))
          (host_of a.hostname a.gateway_hostname)
          none
  unfolding login_of use_auth_provider convert mqtt_args stage_transport new_transport
      create_mqtt_client create_ssl_context login chain_of
  certificate-login a = elim (trust_of-cases ssl a.ca_cert) [
    | inl (e, text, is_text, filled, fails) ↦
        inl (inl (text, is_text, filled, fails), ground (arith, e))
    | inr (t, e, trusts) ↦ elim (Bool-cases (ssl.loads_cert_chain a.credential)) [
      | inr refused ↦ inl (inr (a.credential, refl, refused), ground (arith, e, refused))
      | inl loads ↦ elim (Option-cases (login_of ssl env s (set_x509_auth_provider a))) [
        | inl n ↦ absurd (ground (arith, n, e, loads))
        | inr (l, f) ↦ inr (l, t, trusts, f, ground (arith, e, f, loads))
      ]
    ]
  ]

  -- With a provider of tokens, and with one of a certificate: the TLS settings are refused, which
  -- happens only if the certificate to trust is not empty and cannot be loaded or the client's own
  -- chain cannot be, or the client connects to the gateway, or to the hub if no gateway is given,
  -- verifies the server and its name by the certificate to trust, if it is given and not empty, and by
  -- the default certificates otherwise, and logs in with the token as password and no chain, or with no
  -- password and the chain of the certificate.
  pub logs_in :
      (a : AuthProvider String) (b : AuthProvider X509)
      → Tries ssl a.ca_cert none
          (login_of ssl env s (set_auth_provider a))
          (host_of a.hostname a.gateway_hostname)
          (some a.credential)
        × Tries ssl b.ca_cert
            (some b.credential)
            (login_of ssl env s (set_x509_auth_provider b))
            (host_of b.hostname b.gateway_hostname)
            none
  logs_in a b = (token-login a, certificate-login b)
