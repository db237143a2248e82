-- ===== src/Tasks/Acme.antt =====
-- broker/tasks/letsencrypt.py
pub mod Orders
pub mod Retried
use external_domain_broker.Prelude.{
  ℕ, suc, ◌+◌, String, string_eq, nat_eq, ◌==◌, Bool, true, false, not, Option, none, some, List,
  [], ◌∷◌, ◌++◌, Result, ok, err, Error, attribute_error, index_error, runtime_error, service_error,
  cancel_execution, plain, filter, is_empty, ltb, if◌then◌else◌,
}
use external_domain_broker.Models.{ServiceInstance, Certificate, new_certificate}
use external_domain_broker.Tasks.Work.{
  Work, Act, Service, Tables, Challenge, AcmeUser, ◌>>=◌, ◌>>◌, pure, raise, call, lift, load, save,
  tables_of, new_certificate_of, save_certificate, challenges_of, find_certificate,
}

-- A challenge of an order, with what the library computes for it from the account's key.
pub record Offer : Type 0 where
  pub is_dns : Bool
  pub body_json : String
  pub validation_domain : String
  pub validation_contents : String

-- An order: its JSON, and for each authorization the domain and the challenges.
pub record Order : Type 0 where
  pub order_json : String
  pub authorizations : List (String × List Offer)

-- A finalized order.
pub record Finalized : Type 0 where
  pub order_json : String
  pub fullchain_pem : String

-- What comes of `poll_and_finalize`: `fulfilled` and `problem` are the errors of the protocol, with
-- and without "Order's status (valid)" in their detail.
pub data Finalizing : Type 0 where
  finalized : Finalized → Finalizing
  fulfilled problem validation_error : Finalizing

-- The ACME client, the cryptographic libraries and the clock.
pub record Acme (W : Type 0) : Type 0 where
  pub generate_key : Service W String
  pub make_csr : String → List String → Service W String
  -- with the key and the address; the JSON of the registration and the URI
  pub new_account : String → String → Service W (String × String)
  -- with the CSR
  pub new_order : AcmeUser → String → Service W Order
  -- with the JSON of the challenge
  pub answer_challenge : AcmeUser → String → Service W (Unit {0})
  -- with the JSON of the order and the CSR
  pub poll_and_finalize : AcmeUser → Option String → Option String → Service W Finalizing
  pub get_cert_for_finalized_order : AcmeUser → Option String → Option String → Service W Finalized
  -- the status in the JSON of a challenge is "valid"
  pub is_valid : String → Bool
  -- the certificates of a chain, in a normal form, and the end of the validity of one
  pub certificates_in : String → List String
  pub not_after : String → ℕ
  pub joined : List String → String
  pub now : ℕ

find_user : ℕ → List AcmeUser → Option AcmeUser
find_user id [] = none
find_user id (u ∷ us) = let rest = find_user id us in if u.id == id then some u else rest

-- `service_instance.acme_user`, whose attributes are read
abbrev user_in : Option ℕ → List AcmeUser → Result AcmeUser
unfolding find_user
user_in none us = err attribute_error
user_in (some id) us = elim (find_user id us) [ none ↦ err attribute_error | some u ↦ ok u ]

-- The challenges of the first authorization of a domain.
offers_for : String → List (String × List Offer) → Result (List Offer)
offers_for domain [] = err index_error
offers_for domain ((d, offers) ∷ rest) =
    let others = offers_for domain rest in if d == domain then ok offers else others

first_dns : List Offer → Result Offer
first_dns [] = err (runtime_error (plain "Cannot find DNS challenges"))
first_dns (o ∷ os) = let rest = first_dns os in if o.is_dns then ok o else rest

abbrev dns_of : List Offer → Result Offer
unfolding first_dns
dns_of [] = err (runtime_error (plain "Cannot find any challenges"))
dns_of (o ∷ os) = first_dns (o ∷ os)

unfoldable pub is_nothing : Option String → Bool
is_nothing none = true
is_nothing (some s) = false

unfoldable pub write_challenge : Challenge → List Challenge → List Challenge
write_challenge c [] = []
write_challenge c (d ∷ ds) =
    let rest = write_challenge c ds in if d.id == c.id then c ∷ ds else d ∷ rest

abbrev pub answered_one : Challenge → Challenge
answered_one c = record c { answered = true }

-- The row that `initiate_challenges` makes for a domain.
abbrev pub challenge_for : ℕ → ℕ → String → Offer → Challenge
challenge_for id certificate_id domain o = record {
  id = id;
  certificate_id = certificate_id;
  domain = domain;
  validation_domain = o.validation_domain;
  validation_contents = o.validation_contents;
  body_json = o.body_json;
  answered = false;
}

module _ {W : Type 0} where
  unfoldable pub acme_user_of : ServiceInstance → Act W AcmeUser
  unfolding user_in
  acme_user_of i s = (user_in i.acme_user_id s.tables.users, s)

  unfoldable pub save_challenge : Challenge → Act W (Unit {0})
  unfolding write_challenge
  save_challenge c s = (
    ok tt,
    record s { tables = record s.tables { challenges = write_challenge c s.tables.challenges } },
  )

  unfoldable pub add_user : AcmeUser → Act W (Unit {0})
  add_user u s = (
    ok tt,
    record s {
      tables = record s.tables {
        users = s.tables.users ++ u ∷ [];
        next_user_id = suc s.tables.next_user_id;
      };
    },
  )

  unfoldable pub add_certificate : Certificate → Act W (Unit {0})
  add_certificate c s = (
    ok tt,
    record s {
      tables = record s.tables {
        certificates = s.tables.certificates ++ c ∷ [];
        next_certificate_id = suc s.tables.next_certificate_id;
      };
    },
  )

  unfoldable pub add_challenges : List Challenge → ℕ → Act W (Unit {0})
  add_challenges cs next s = (
    ok tt,
    record s {
      tables = record s.tables { challenges = s.tables.challenges ++ cs; next_challenge_id = next };
    },
  )

  -- `db.session.delete(certificate)`, with its challenges
  unfoldable pub delete_certificate : ℕ → Act W (Unit {0})
  unfolding filter
  delete_certificate id s = (
    ok tt,
    record s {
      tables = record s.tables {
        certificates = filter (λ (c : Certificate). not (c.id == id)) s.tables.certificates;
        challenges = filter (λ (c : Challenge). not (c.certificate_id == id)) s.tables.challenges;
      };
    },
  )

-- `dns_challenge`
unfoldable pub dns_challenge : Order → String → Result Offer
unfolding offers_for first_dns
dns_challenge order domain = elim (offers_for domain order.authorizations) [
  | err e ↦ err e
  | ok offers ↦ dns_of offers
]
