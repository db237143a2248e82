-- ===== src/Cf/Token.antt =====
-- The token of the client of broker/lib/cf.py.
use external_domain_broker.Prelude.{
  ℕ, ◌+◌, ◌<◌, String, string_eq, ◌==◌, Bool, false, not, ◌||◌, Option, none, some, Result, ok, err,
  if◌then◌else◌, ◌≡◌, refl, ok_same, sym, subst, ap, ◌∙◌, arith, ◌⊎◌, inl, inr, Bool-cases,
}
use external_domain_broker.Cf.{
  Api, Client, has_token, is_token_expiring, fetch_access_token, token_set, with_token,
}

-- The tokens of the service are not empty, and are good for more than half a minute.
pub record GivesTokens {W : Type 0} (api : Api W) : Type 0 where
  pub good :
      (w w' : W) (token : String) (seconds : ℕ)
      → api.token w ≡ (ok (token, seconds), w')
      → ((token == "") ≡ false) × (30 < seconds)

-- The client has no token yet, or one with the time at which it expires.
abbrev pub IsClient : Client → Type 0
IsClient c = (c.access_token ≡ none) ⊎ ((t : ℕ) × (c.access_token_expiration ≡ some t) × (0 < t))

-- The client has a token, and it is good for more than half a minute from now.
pub record IsGood (now : ℕ) (c : Client) : Type 0 where
  pub token : String
  pub until : ℕ
  pub has : c.access_token ≡ some token
  pub is_text : (token == "") ≡ false
  pub expires : c.access_token_expiration ≡ some until
  pub is_later : now + 30 < until

module _ {W : Type 0} (api : Api W) (law : GivesTokens api) (now : ℕ) where
  fetched :
      (c c' : Client) (w w' : W) (x : Result (String × ℕ) × W)
      → api.token w ≡ x
      → token_set api now c x ≡ (ok c', w')
      → IsGood now c'
  fetched c c' w w' (ok (token, seconds), u) e h =
      let (text, more) = law.good w u token seconds e in
      subst (IsGood now) (ok_same (ap (λ (x : Result Client × W). x.0) h)) record {
        token = token;
        until = now + seconds;
        has = refl;
        is_text = text;
        expires = refl;
        is_later = omega (arith, more);
      }
  fetched c c' w w' (err x, u) e h = absurd (ground arith)

  held :
      (c : Client) (o : Option String)
      → c.access_token ≡ o
      → IsClient c
      → (not (has_token o) || is_token_expiring now c) ≡ false
      → IsGood now c
  unfolding is_token_expiring
  held c none e i n = absurd (ground arith)
  held c (some token) e (inl k) n = absurd (ground arith)
  held c (some token) e (inr (t, k, p)) n = record {
    token = token;
    until = t;
    has = e;
    is_text = ground (arith, n);
    expires = k;
    is_later = ground (arith, n, k, p);
  }

  not_needed :
      (c : Client)
      → IsGood now c
      → (not (has_token c.access_token) || is_token_expiring now c) ≡ false
  unfolding is_token_expiring
  not_needed c g = ground (arith, g.has, g.expires, g.is_text, g.is_later)

  good_stays : (c : Client) (v : W) → IsGood now c → with_token api now c v ≡ (ok c, v)
  unfolding with_token is_token_expiring
  good_stays c v g =
      ap (λ (b : Bool). if b then fetch_access_token api now c v else (ok c, v)) (not_needed c g)

  -- If the service's tokens are not empty and good for more than half a minute, then after a client
  -- made sure of a token it has one, which does not expire within half a minute of that time, and
  -- making sure of it again at that time calls no service.
  pub with_token_lem :
      (c c' : Client) (w w' : W)
      → IsClient c
      → with_token api now c w ≡ (ok c', w')
      → IsGood now c' × ((v : W) → with_token api now c' v ≡ (ok c', v))
  unfolding with_token fetch_access_token
  with_token_lem c c' w w' i h = (good, λ v. good_stays c' v good)
    where
      good : IsGood now c'
      good = elim (Bool-cases (not (has_token c.access_token) || is_token_expiring now c)) [
        | inl y ↦
            fetched c c' w w' (api.token w) refl (
              sym (ap (λ (b : Bool). if b then fetch_access_token api now c w else (ok c, w)) y)
              ∙ h)
        | inr n ↦
            subst (IsGood now)
              (ok_same (
                ap (λ (x : Result Client × W). x.0)
                  (sym
                      (ap (λ (b : Bool). if b then fetch_access_token api now c w else (ok c, w)) n)
                    ∙ h)))
              (held c c.access_token refl i n)
      ]
