-- ===== src/Auth/Edge/Hsm.antt =====
-- `IoTEdgeHsm` of iothub/auth/iotedge_authentication_provider.py: the requests to the module of IoT
-- Edge that signs. `quote`, `quote_plus` and `quote_all`, which is `quote` with no safe character,
-- are urllib's, `b64encode` that of a text in UTF-8; `http` makes a request.
use azure_iot_sdk_python_pre.Prelude.{
  ◌≡◌, ◌∙◌, ap, false, Option, none, some, List, [], ◌∷◌, ◌++◌, arith,
}
use azure_iot_sdk_python_pre.Text.{Text, codes}
use azure_iot_sdk_python_pre.Auth.Edge.{
  HttpResponse, get_trust_bundle, sign, slash, ends_with_slash, strip_prefix, socket_uri,
  format_socket_uri, format_socket_uri-slash,
}
use mathlib.Core.List.{append_assoc}

pub record Service : Type 0 where
  pub quote : Text → Text
  pub quote_all : Text → Text
  pub quote_plus : Text → Text
  pub b64encode : Text → Text

-- A request: its url, the parameter "api-version", the header "User-Agent", and the JSON object of
-- its body, if it has one.
pub record Request : Type 0 where
  pub url : Text
  pub api_version : Text
  pub user_agent : Text
  pub body : Option (List (Text × Text))

pub record IotEdgeHsm : Type 0 where
  pub module_id : Text
  pub api_version : Text
  pub module_generation_id : Text
  pub workload_uri : Text

unfoldable pub user_agent : Text
unfolding codes
user_agent = codes "py-azure-iot-device/2.0.0-preview.9"

module _ (env : Service) where
  -- `IoTEdgeHsm.__init__`
  unfoldable pub new_hsm : Text → Text → Text → Text → IotEdgeHsm
  unfolding format_socket_uri
  new_hsm module_id module_generation_id workload_uri api_version = record {
    module_id = env.quote module_id;
    api_version = api_version;
    module_generation_id = module_generation_id;
    workload_uri = format_socket_uri env.quote_all workload_uri;
  }

  unfoldable pub trust_bundle_request : IotEdgeHsm → Request
  unfolding codes user_agent
  trust_bundle_request hsm = record {
    url = hsm.workload_uri ++ codes "trust-bundle";
    api_version = hsm.api_version;
    user_agent = env.quote_plus user_agent;
    body = none;
  }

  unfoldable pub sign_path : IotEdgeHsm → Text
  unfolding codes
  sign_path hsm =
      hsm.workload_uri
      ++ (codes "modules/"
          ++ (hsm.module_id ++ (codes "/genid/" ++ (hsm.module_generation_id ++ codes "/sign"))))

  unfoldable pub sign_request : Text → IotEdgeHsm → Request
  unfolding codes user_agent sign_path
  sign_request data_str hsm = record {
    url = sign_path hsm;
    api_version = hsm.api_version;
    user_agent = env.quote_plus user_agent;
    body = some (
        (codes "keyId", codes "primary")
        ∷ (codes "algo", codes "HMACSHA256")
        ∷ (codes "data", env.b64encode data_str)
        ∷ []);
  }

  -- The two methods; `none` is an `IoTEdgeError`.
  unfoldable pub hsm_get_trust_bundle : (Request → HttpResponse) → IotEdgeHsm → Option Text
  unfolding trust_bundle_request get_trust_bundle
  hsm_get_trust_bundle http hsm = get_trust_bundle (http (trust_bundle_request hsm))

  unfoldable pub hsm_sign : (Request → HttpResponse) → Text → IotEdgeHsm → Option Text
  unfolding sign_request sign
  hsm_sign http data_str hsm = sign env.quote (http (sign_request data_str hsm))

  -- The uri of a socket, as requests are made under it.
  format_socket_uri-socket :
      (path : Text)
      → ends_with_slash path ≡ false
      → ends_with_slash (codes "http+unix://" ++ env.quote_all path) ≡ false
      → format_socket_uri env.quote_all (codes "unix://" ++ path)
        ≡ (codes "http+unix://" ++ env.quote_all path) ++ (slash ∷ [])
  unfolding format_socket_uri socket_uri codes strip_prefix
  format_socket_uri-socket path h quoted = ground (arith, h, quoted)

  -- The paths of the requests to sign and for the trust bundle are made of the socket's path, which is
  -- quoted whole, and for the first of the quoted id of the module and its generation; a slash at
  -- the end of the socket's path changes nothing. For a path that does not end with a slash, and a
  -- `quote` that leaves none at the end.
  pub sign_path-socket :
      (module_id generation_id api_version path : Text)
      → ends_with_slash path ≡ false
      → ends_with_slash (codes "http+unix://" ++ env.quote_all path) ≡ false
      → let hsm = new_hsm module_id generation_id (codes "unix://" ++ path) api_version in
        let socket = codes "http+unix://" ++ env.quote_all path in
        (new_hsm module_id generation_id (codes "unix://" ++ (path ++ (slash ∷ []))) api_version
          ≡ hsm)
        × (sign_path hsm
            ≡ socket
              ++ (codes "/modules/"
                  ++ (env.quote module_id
                      ++ (codes "/genid/" ++ (generation_id ++ codes "/sign")))))
        × ((trust_bundle_request hsm).url ≡ socket ++ codes "/trust-bundle")
  unfolding new_hsm sign_path trust_bundle_request codes
  sign_path-socket module_id generation_id api_version path h quoted =
      let socket = codes "http+unix://" ++ env.quote_all path in
      let under = format_socket_uri-socket path h quoted in
      let rest =
        codes "modules/"
        ++ (env.quote module_id ++ (codes "/genid/" ++ (generation_id ++ codes "/sign"))) in
      (
        ap (λ (u : Text). hsm_at u) (format_socket_uri-slash env.quote_all path path h).1,
        ap (λ (u : Text). u ++ rest) under ∙ append_assoc socket (slash ∷ []) rest,
        ap (λ (u : Text). u ++ codes "trust-bundle") under
            ∙ append_assoc socket (slash ∷ []) (codes "trust-bundle"),
      )
    where
      hsm_at : Text → IotEdgeHsm
      hsm_at u = record {
        module_id = env.quote module_id;
        api_version = api_version;
        module_generation_id = generation_id;
        workload_uri = u;
      }
