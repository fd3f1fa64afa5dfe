-- ===== src/Auth/Edge.antt =====
-- iothub/auth/iotedge_authentication_provider.py: the answers of the module of IoT Edge that signs,
-- and the uri for them. `requests` and `quote` of urllib are arguments.
pub mod Hsm
use azure_iot_sdk_python_pre.Prelude.{
  ℕ, ◌≡◌, refl, Bool, true, false, Option, none, some, [], ◌∷◌, ◌++◌, ◌==◌, if◌then◌else◌, arith,
}
use azure_iot_sdk_python_pre.Prelude.Dict.{Dict, lookup}
use azure_iot_sdk_python_pre.Text.{Text, codes, text_eq}

-- The answer of an HTTP request, as far as it is read: whether `raise_for_status` passes, and the
-- JSON object of the body, `none` if there is none.
pub record HttpResponse : Type 0 where
  pub ok : Bool
  pub json : Option (Dict Text Text)

-- `get_trust_bundle` and `sign`, from the answer to their request; `none` is an `IoTEdgeError`.
unfoldable pub field_of : Text → HttpResponse → Option Text
field_of name r = if r.ok then (elim r.json [ none ↦ none | some d ↦ lookup name d ]) else none

unfoldable pub get_trust_bundle : HttpResponse → Option Text
unfolding field_of codes
get_trust_bundle r = field_of (codes "certificate") r

unfoldable pub sign : (Text → Text) → HttpResponse → Option Text
unfolding field_of codes
sign quote r = elim (field_of (codes "digest") r) [ none ↦ none | some d ↦ some (quote d) ]

abbrev pub slash : ℕ
slash = 47

unfoldable pub ends_with_slash : Text → Bool
ends_with_slash [] = false
ends_with_slash (c ∷ []) = c == slash
ends_with_slash (c ∷ d ∷ s) = ends_with_slash (d ∷ s)

-- `s[:-1]`
unfoldable pub without_last : Text → Text
without_last [] = []
without_last (c ∷ []) = []
without_last (c ∷ d ∷ s) = c ∷ without_last (d ∷ s)

-- What follows a prefix.
unfoldable pub strip_prefix : Text → Text → Option Text
strip_prefix [] s = some s
strip_prefix (c ∷ p) [] = none
strip_prefix (c ∷ p) (d ∷ s) = let later = strip_prefix p s in if c == d then later else none

-- The first half of `_format_socket_uri`.
unfoldable pub socket_uri : (Text → Text) → Text → Text
unfolding ends_with_slash without_last strip_prefix codes
socket_uri quote old_uri = elim (strip_prefix (codes "unix://") old_uri) [
  | none ↦ old_uri
  | some stripped ↦
      codes "http+unix://"
      ++ quote (if ends_with_slash stripped then without_last stripped else stripped)
]

unfoldable pub format_socket_uri : (Text → Text) → Text → Text
unfolding ends_with_slash socket_uri
format_socket_uri quote old_uri =
    let new_uri = socket_uri quote old_uri in
    if ends_with_slash new_uri then new_uri else new_uri ++ (slash ∷ [])

ends_with-append : (s : Text) → ends_with_slash (s ++ (slash ∷ [])) ≡ true
unfolding ends_with_slash
ends_with-append [] = refl
ends_with-append (c ∷ []) = refl
ends_with-append (c ∷ d ∷ s) = ends_with-append (d ∷ s)

without_last-append : (s : Text) → without_last (s ++ (slash ∷ [])) ≡ s
unfolding without_last
without_last-append [] = refl
without_last-append (c ∷ []) = refl
without_last-append (c ∷ d ∷ s) = ground (arith, without_last-append (d ∷ s))

closed_slash :
    (s : Text) → ends_with_slash (if ends_with_slash s then s else s ++ (slash ∷ [])) ≡ true
closed_slash s = ground (arith, ends_with-append s)

-- The workload uri that requests are made under ends with a slash. Of the uri of a socket, whose
-- path does not end with one, it does not matter whether a slash is added.
pub format_socket_uri-slash :
    (quote : Text → Text) (uri path : Text)
    → ends_with_slash path ≡ false
    → (ends_with_slash (format_socket_uri quote uri) ≡ true)
      × (format_socket_uri quote (codes "unix://" ++ (path ++ (slash ∷ [])))
          ≡ format_socket_uri quote (codes "unix://" ++ path))
unfolding format_socket_uri socket_uri codes strip_prefix
format_socket_uri-slash quote uri path h = (
  closed_slash (socket_uri quote uri),
  ground (arith, h, ends_with-append path, without_last-append path),
)
