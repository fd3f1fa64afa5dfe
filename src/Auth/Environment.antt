-- ===== src/Auth/Environment.antt =====
-- `create_from_edge_environment` of iothub/abstract_clients.py. `os.environ` and the files are
-- arguments.
use azure_iot_sdk_python_pre.Prelude.{
  ◌≡◌, refl, ◌↔◌, ◌⊎◌, inl, inr, Option-cases, length, Bool, true, false, ◌&&◌, Option, none, some,
  List, [], ◌∷◌, arith,
}
use azure_iot_sdk_python_pre.Prelude.Dict.{Dict, lookup}
use azure_iot_sdk_python_pre.Text.{Text, codes, text_eq}
use azure_iot_sdk_python_pre.Auth.SharedKey.{SharedKeyProvider, parse_shared_key}
use azure_iot_sdk_python_pre.Auth.Edge.{HttpResponse, get_trust_bundle}

pub record EdgeProvider : Type 0 where
  pub hostname : Text
  pub device_id : Text
  pub module_id : Text
  pub gateway_hostname : Text
  pub module_generation_id : Text
  pub workload_uri : Text
  pub api_version : Text
  pub ca_cert : Text

pub data Created : Type 0 where
  edge : EdgeProvider → Created
  shared_key : SharedKeyProvider → Text → Created
  iot_edge_error value_error : Created

-- The constructor of `IoTEdgeAuthenticationProvider`, which asks for the trust bundle.
unfoldable pub edge_provider : HttpResponse → (Text → EdgeProvider) → Created
unfolding get_trust_bundle
edge_provider r provider = elim (get_trust_bundle r) [
  | none ↦ iot_edge_error
  | some cert ↦ edge (provider cert)
]

-- The variables that Visual Studio sets; `files` reads a file, `none` if it cannot.
unfoldable pub from_debug_variables : (Text → Option Text) → Dict Text Text → Created
unfolding codes parse_shared_key
from_debug_variables files environ = elim (lookup (codes "EdgeHubConnectionString") environ) [
  | none ↦ iot_edge_error
  | some connection_string ↦ elim (lookup (codes "EdgeModuleCACertificateFile") environ) [
    | none ↦ iot_edge_error
    | some path ↦ elim (files path) [
      | none ↦ value_error
      | some ca_cert ↦ elim (parse_shared_key connection_string) [
        | none ↦ value_error
        | some provider ↦ shared_key provider ca_cert
      ]
    ]
  ]
]

unfoldable pub edge_variables : List Text
unfolding codes
edge_variables =
    codes "IOTEDGE_IOTHUBHOSTNAME"
    ∷ codes "IOTEDGE_DEVICEID"
    ∷ codes "IOTEDGE_MODULEID"
    ∷ codes "IOTEDGE_GATEWAYHOSTNAME"
    ∷ codes "IOTEDGE_MODULEGENERATIONID"
    ∷ codes "IOTEDGE_WORKLOADURI"
    ∷ codes "IOTEDGE_APIVERSION"
    ∷ []

-- The values of variables, if all are set.
unfoldable pub all_of : List Text → Dict Text Text → Option (List Text)
all_of [] environ = some []
all_of (k ∷ keys) environ =
    let later = all_of keys environ in
    elim (lookup k environ) [
      | none ↦ none
      | some v ↦ elim later [ none ↦ none | some vs ↦ some (v ∷ vs) ]
    ]

-- The provider of `create_from_edge_environment`; the values stand in the order of the variables.
unfoldable pub from_values : HttpResponse → List Text → Created
unfolding edge_provider
from_values r (h ∷ d ∷ m ∷ g ∷ n ∷ w ∷ v ∷ []) = edge_provider r (λ cert. record {
  hostname = h;
  device_id = d;
  module_id = m;
  gateway_hostname = g;
  module_generation_id = n;
  workload_uri = w;
  api_version = v;
  ca_cert = cert;
})
from_values r _ = iot_edge_error

unfoldable pub create_from_edge_environment :
    HttpResponse → (Text → Option Text) → Dict Text Text → Created
unfolding all_of edge_variables from_values from_debug_variables
create_from_edge_environment r files environ = elim (all_of edge_variables environ) [
  | none ↦ from_debug_variables files environ
  | some values ↦ from_values r values
]

unfoldable pub is_set : Text → Dict Text Text → Bool
is_set k environ = elim (lookup k environ) [ none ↦ false | some _ ↦ true ]

unfoldable pub all_set : List Text → Dict Text Text → Bool
unfolding is_set
all_set [] environ = true
all_set (k ∷ keys) environ = is_set k environ && all_set keys environ

abbrev pub debug_variables : List Text
debug_variables = codes "EdgeHubConnectionString" ∷ codes "EdgeModuleCACertificateFile" ∷ []

-- A list of as many values as there are variables.
values_of :
    (keys : List Text) (environ : Dict Text Text)
    → (all_set keys environ ≡ false × (all_of keys environ ≡ none))
      ⊎ ((vs : List Text) × (all_set keys environ ≡ true)
          × (all_of keys environ ≡ some vs)
          × (length vs ≡ length keys))
unfolding all_of all_set is_set
values_of [] environ = inr ([], refl, refl, refl)
values_of (k ∷ keys) environ = elim (values_of keys environ) [
  | inl missing ↦ inl (ground (arith, missing))
  | inr (vs, a, b, c) ↦ elim (Option-cases (lookup k environ)) [
    | inl e ↦ inl (ground (arith, e))
    | inr (v, e) ↦ inr (v ∷ vs, ground (arith, a, e), ground (arith, b, e), ground (arith, c))
  ]
]

seven_values :
    (r : HttpResponse) (vs : List Text) (cert : Text)
    → length vs ≡ 7
    → get_trust_bundle r ≡ some cert
    → (p : EdgeProvider) × (from_values r vs ≡ edge p)
unfolding from_values edge_provider
seven_values r (h ∷ d ∷ m ∷ g ∷ n ∷ w ∷ v ∷ []) cert l e = (
  record {
    hostname = h;
    device_id = d;
    module_id = m;
    gateway_hostname = g;
    module_generation_id = n;
    workload_uri = w;
    api_version = v;
    ca_cert = cert;
  },
  ground (arith, e),
)
seven_values r [] cert l e = absurd (omega (arith, l))
seven_values r (h ∷ []) cert l e = absurd (omega (arith, l))
seven_values r (h ∷ d ∷ []) cert l e = absurd (omega (arith, l))
seven_values r (h ∷ d ∷ m ∷ []) cert l e = absurd (omega (arith, l))
seven_values r (h ∷ d ∷ m ∷ g ∷ []) cert l e = absurd (omega (arith, l))
seven_values r (h ∷ d ∷ m ∷ g ∷ n ∷ []) cert l e = absurd (omega (arith, l))
seven_values r (h ∷ d ∷ m ∷ g ∷ n ∷ w ∷ []) cert l e = absurd (omega (arith, l))
seven_values r (h ∷ d ∷ m ∷ g ∷ n ∷ w ∷ v ∷ x ∷ vs) cert l e = absurd (omega (arith, l))

debug-refused :
    (files : Text → Option Text) (environ : Dict Text Text)
    → (from_debug_variables files environ ≡ iot_edge_error)
      ↔ (all_set debug_variables environ ≡ false)
unfolding from_debug_variables all_set is_set
debug-refused files environ = ground arith

-- If the trust bundle can be read: the environment is refused as not configured exactly if one of
-- the seven regular variables is not set and one of the two for debugging is not.
pub create_from_edge_environment-refused :
    (r : HttpResponse) (files : Text → Option Text) (environ : Dict Text Text) (cert : Text)
    → get_trust_bundle r ≡ some cert
    → (create_from_edge_environment r files environ ≡ iot_edge_error)
      ↔ ((all_set edge_variables environ ≡ false) × (all_set debug_variables environ ≡ false))
unfolding create_from_edge_environment
create_from_edge_environment-refused r files environ cert e =
    elim (values_of edge_variables environ) [
      | inl missing ↦ ground (arith, missing, debug-refused files environ)
      | inr (vs, a, b, c) ↦ ground (arith, a, b, seven_values r vs cert c e)
    ]
