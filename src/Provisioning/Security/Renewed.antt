-- ===== src/Provisioning/Security/Renewed.antt =====
-- The tokens of a security client over time.
use azure_iot_sdk_python_pre.Prelude.{
  ℕ, ◌+◌, ◌*◌, ◌≡◌, refl, ap, Bool, true, false, Option, none, some, List, [], ◌∷◌, ◌++◌, arith,
  ◌∙◌, if◌then◌else◌,
}
use Prim.Native.Nat.{◌/◌}
use azure_iot_sdk_python_pre.Text.{Text, codes}
use azure_iot_sdk_python_pre.Provisioning.Security.{
  Signer, SasToken, SymmetricKeySecurityClient, build_token, refresh, new_token,
  create_shared_access_signature, get_current_sas_token,
}

module _ (env : Signer) where
  -- The clients that a list of moments leads to, at each of which a token was asked for.
  unfoldable pub after : List ℕ → SymmetricKeySecurityClient → SymmetricKeySecurityClient
  unfolding get_current_sas_token
  after [] c = c
  after (now ∷ moments) c = after moments (get_current_sas_token env now c).0

  -- The token of a client at a moment, by what it was constructed with.
  unfoldable pub expected : ℕ → SymmetricKeySecurityClient → Option Text
  unfolding build_token codes
  expected now c =
      build_token env
        (env.quote_plus (c.id_scope ++ (codes "/registrations/" ++ c.registration_id)))
        c.symmetric_key (some (codes "registration")) ((now + 3600 * 1000) / 1000)

  abbrev resource : SymmetricKeySecurityClient → Text
  resource c = c.id_scope ++ (codes "/registrations/" ++ c.registration_id)

  -- A token that was made for a client.
  unfoldable IsFor : SymmetricKeySecurityClient → SasToken → Type 0
  IsFor c t =
      (t.uri ≡ env.quote_plus (resource c))
      × (t.key ≡ c.symmetric_key)
      × (t.key_name ≡ some (codes "registration"))
      × (t.ttl ≡ 3600)

  abbrev answer : SasToken × Bool → Option Text
  answer (t, ok) = if ok then some t.token else none

  refresh-answer :
      (now : ℕ) (t : SasToken)
      → answer (refresh env now t)
        ≡ build_token env t.uri t.key t.key_name ((now + t.ttl * 1000) / 1000)
  unfolding refresh
  refresh-answer now t = ground arith

  refresh-IsFor :
      (now : ℕ) (c : SymmetricKeySecurityClient) (t : SasToken)
      → IsFor c t
      → IsFor c (refresh env now t).0 × (answer (refresh env now t) ≡ expected now c)
  unfolding refresh IsFor expected
  refresh-IsFor now c t (u, k, n, l) =
      (ground (arith, u, k, n, l), refresh-answer now t ∙ rw (u, k, n, l) refl)

  -- A token, if there is one, that was made for a client.
  unfoldable IsOwn : SymmetricKeySecurityClient → Option SasToken → Type 0
  IsOwn c none = Unit
  IsOwn c (some t) = IsFor c t

  abbrev created :
      SymmetricKeySecurityClient → SasToken × Bool → SymmetricKeySecurityClient × Option Text
  created c r =
      elim (if r.1 then some r.0 else none) as (λ _. SymmetricKeySecurityClient × Option Text) [
        | none ↦ (record c { sas_token = none }, none)
        | some t ↦ (record c { sas_token = some t }, some t.token)
      ]

  abbrev blank : SymmetricKeySecurityClient → SasToken
  blank c = record {
    uri = env.quote_plus (resource c);
    key = c.symmetric_key;
    key_name = some (codes "registration");
    ttl = 3600;
    expiry_time = 0;
    token = [];
  }

  -- What the client makes of a token that it has just created.
  create-IsOwn :
      (c : SymmetricKeySecurityClient) (r : SasToken × Bool) (o : Option Text)
      → IsFor c r.0
      → answer r ≡ o
      → IsOwn c (created c r).0.sas_token × ((created c r).1 ≡ o)
  unfolding IsOwn
  create-IsOwn c (t, true) o w e = (w, e)
  create-IsOwn c (t, false) o w e = (tt, e)

  get-IsOwn :
      (now : ℕ) (c : SymmetricKeySecurityClient) (o : Option SasToken)
      → IsOwn c o
      → IsOwn c (get_current_sas_token env now (record c { sas_token = o })).0.sas_token
        × ((get_current_sas_token env now (record c { sas_token = o })).1 ≡ expected now c)
  unfolding get_current_sas_token create_shared_access_signature new_token IsOwn IsFor
  get-IsOwn now c none w =
      let (own, right) = refresh-IsFor now c (blank c) (refl, refl, refl, refl) in
      create-IsOwn c (refresh env now (blank c)) (expected now c) own right
  get-IsOwn now c (some t) w = refresh-IsFor now c t w

  get-keeps :
      (now : ℕ) (c : SymmetricKeySecurityClient) (o : Option SasToken)
      → (get_current_sas_token env now (record c { sas_token = o })).0 ≡ record c {
        sas_token = (get_current_sas_token env now (record c { sas_token = o })).0.sas_token;
      }
  unfolding get_current_sas_token
  get-keeps now c (some t) = refl
  get-keeps now c none = ground arith

  after-IsOwn :
      (moments : List ℕ) (c : SymmetricKeySecurityClient) (o : Option SasToken)
      → IsOwn c o
      → (last : Option SasToken) × (after moments (record c { sas_token = o })
          ≡ record c { sas_token = last })
        × IsOwn c last
  unfolding after
  after-IsOwn [] c o w = (o, refl, w)
  after-IsOwn (now ∷ moments) c o w =
      let next = (get_current_sas_token env now (record c { sas_token = o })).0.sas_token in
      let (last, same, own) = after-IsOwn moments c next (get-IsOwn now c o w).0 in
      (last, ap (after moments) (get-keeps now c o) ∙ same, own)

-- A client as it is constructed.
abbrev pub new_client : Text → Text → Text → Text → SymmetricKeySecurityClient
new_client host registration_id id_scope key = record {
  provisioning_host = host;
  registration_id = registration_id;
  id_scope = id_scope;
  symmetric_key = key;
  sas_token = none;
}

-- Whenever tokens were asked for before, and whether or not these calls raised an error: the token
-- of a security client at a moment is signed with its key for its own registration, and expires an
-- hour later; an error is raised exactly if this cannot be signed.
pub get_current_sas_token-renewed :
    (env : Signer) (host registration_id id_scope key : Text) (moments : List ℕ) (now : ℕ)
    → (get_current_sas_token env now
        (after env moments (new_client host registration_id id_scope key))).1
      ≡ expected env now (new_client host registration_id id_scope key)
unfolding IsOwn
get_current_sas_token-renewed env host registration_id id_scope key moments now =
    let c = new_client host registration_id id_scope key in
    let (last, same, own) = after-IsOwn env moments c none tt in
    ap (λ d. (get_current_sas_token env now d).1) same ∙ (get-IsOwn env now c last own).1
