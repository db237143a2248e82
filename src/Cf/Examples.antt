-- ===== src/Cf/Examples.antt =====
-- Tests of the client: a service whose tokens are good for an hour.
use external_domain_broker.Prelude.{
  inl, string_eq, ◌==◌, false, ℕ, suc, ◌<◌, ◌≡◌, String, none, some, [], Result, ok, refl, ap,
  arith, ok_same, subst,
}
use external_domain_broker.Cf.{Api, Client, with_token}
use external_domain_broker.Cf.Token.{GivesTokens, IsGood, with_token_lem}

abbrev api : Api ℕ
api = record {
  token = λ w. (ok ("token", 3600), suc w);
  space_name = λ token guid w. (ok "dev", suc w);
  organization_name = λ token guid w. (ok "org", suc w);
}

gives_tokens : GivesTokens api
gives_tokens = record {
  good = λ w w' token seconds h.
      subst (λ (p : String × ℕ). ((p.0 == "") ≡ false) × (30 < p.1))
        (ok_same (ap (λ (x : Result (String × ℕ) × ℕ). x.0) h)) (refl, omega arith);
}

abbrev fresh : Client
fresh = record {
  access_token = none;
  access_token_expiration = none;
  space_names = [];
  organization_names = [];
}

-- The client when it got its token at 100.
abbrev with_one : Client
with_one = record fresh { access_token = some "token"; access_token_expiration = some 3700 }

with_token_lem_example :
    IsGood 100 with_one × ((v : ℕ) → with_token api 100 with_one v ≡ (ok with_one, v))
unfolding with_token
with_token_lem_example = with_token_lem api gives_tokens 100 fresh with_one 0 1 (inl refl) got
  where
    got : with_token api 100 fresh 0 ≡ (ok with_one, 1)
    got = refl
