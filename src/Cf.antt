-- ===== src/Cf.antt =====
-- broker/lib/cf.py. The client keeps a token, and the names that it has looked up.
pub mod Token
mod Examples
use external_domain_broker.Prelude.{
  ℕ, ◌+◌, String, string_eq, ◌==◌, Bool, true, false, not, ◌||◌, Option, none, some, List, [], ◌∷◌,
  Result, ok, err, Error, lookup, leb, if◌then◌else◌,
}

-- What the two services answer, as functions of the state of the outside world.
pub record Api (W : Type 0) : Type 0 where
  -- the token, and the seconds until it expires
  pub token : W → Result (String × ℕ) × W
  -- with the token and the id of a space or an organization
  pub space_name : String → String → W → Result String × W
  pub organization_name : String → String → W → Result String × W

-- `CFAPIClient`, with the dictionaries that `functools.cache` keeps.
pub record Client : Type 0 where
  pub access_token : Option String
  pub access_token_expiration : Option ℕ
  pub space_names : List (String × String)
  pub organization_names : List (String × String)

abbrev pub has_token : Option String → Bool
has_token none = false
has_token (some t) = elim (t == "") [ true ↦ false | false ↦ true ]

-- `is_token_expiring`; the time 0 counts as none.
unfoldable pub is_token_expiring : ℕ → Client → Bool
is_token_expiring now c = elim c.access_token_expiration [
  | none ↦ false
  | some t ↦ elim (leb t 0) [ true ↦ false | false ↦ leb t (now + 30) ]
]

module _ {W : Type 0} (api : Api W) (now : ℕ) where
  abbrev pub token_set : Client → Result (String × ℕ) × W → Result Client × W
  token_set c (ok (token, expires_in), w) = (
    ok (record c { access_token = some token; access_token_expiration = some (now + expires_in) }),
    w,
  )
  token_set c (err e, w) = (err e, w)

  unfoldable pub fetch_access_token : Client → W → Result Client × W
  fetch_access_token c w = token_set c (api.token w)

  -- The property `access_token`, before it is read.
  unfoldable pub with_token : Client → W → Result Client × W
  unfolding is_token_expiring fetch_access_token
  with_token c w =
      if not (has_token c.access_token) || is_token_expiring now c
      then fetch_access_token c w
      else (ok c, w)

  abbrev pub text_of_token : Option String → String
  text_of_token none = "None"
  text_of_token (some t) = t

  abbrev pub asked_space : Client → String → Result String × W → Result (Client × String) × W
  asked_space c guid (ok name, w) =
      (ok (record c { space_names = (guid, name) ∷ c.space_names }, name), w)
  asked_space c guid (err e, w) = (err e, w)

  abbrev pub with_client :
      Result Client × W → (Client → W → Result (Client × String) × W) → Result (Client × String) × W
  with_client (ok c, w) next = next c w
  with_client (err e, w) next = (err e, w)

  unfoldable pub get_space_name_by_guid : Client → String → W → Result (Client × String) × W
  unfolding lookup with_token
  get_space_name_by_guid c guid w = elim (lookup guid c.space_names) [
    | some name ↦ (ok (c, name), w)
    | none ↦
        with_client (with_token c w)
          λ c' w'. asked_space c' guid (api.space_name (text_of_token c'.access_token) guid w')
  ]

  abbrev pub asked_organization : Client → String → Result String × W → Result (Client × String) × W
  asked_organization c guid (ok name, w) =
      (ok (record c { organization_names = (guid, name) ∷ c.organization_names }, name), w)
  asked_organization c guid (err e, w) = (err e, w)

  unfoldable pub get_organization_name_by_guid : Client → String → W → Result (Client × String) × W
  unfolding lookup with_token
  get_organization_name_by_guid c guid w = elim (lookup guid c.organization_names) [
    | some name ↦ (ok (c, name), w)
    | none ↦ with_client (with_token c w) λ c' w'.
        asked_organization c' guid (api.organization_name (text_of_token c'.access_token) guid w')
  ]
