-- ===== src/Tasks/Acme/Orders.antt =====
-- The tasks of broker/tasks/letsencrypt.py.
use external_domain_broker.Prelude.{
  ℕ, suc, ◌+◌, String, string_eq, nat_eq, Bool, false, not, Option, none, some, List, [], ◌∷◌,
  Result, ok, err, attribute_error, runtime_error, service_error, cancel_execution, plain, filter,
  is_empty, ltb, if◌then◌else◌, or_raise,
}
use external_domain_broker.Models.{ServiceInstance, Certificate, new_certificate}
use external_domain_broker.Tasks.Work.{
  Act, Challenge, AcmeUser, ◌>>=◌, ◌>>◌, pure, raise, call, lift, load, save, tables_of,
  new_certificate_of, save_certificate, challenges_of, find_certificate,
}
use external_domain_broker.Tasks.Acme.{
  Acme, Order, Finalized, Finalizing, finalized, fulfilled, problem, validation_error,
  dns_challenge, challenge_for, answered_one, is_nothing, acme_user_of, save_challenge, add_user,
  add_certificate, add_challenges, delete_certificate,
}

-- The rows of the loop of `initiate_challenges`, with ids from `id`.
unfoldable pub challenges_for : ℕ → ℕ → Order → List String → Result (List Challenge)
unfolding dns_challenge
challenges_for id certificate_id order [] = ok []
challenges_for id certificate_id order (d ∷ ds) = elim (dns_challenge order d) [
  | err e ↦ err e
  | ok offer ↦ elim (challenges_for (suc id) certificate_id order ds) [
    | err e ↦ err e
    | ok rest ↦ ok (challenge_for id certificate_id d offer ∷ rest)
  ]
]

abbrev count : List String → ℕ
count [] = 0
count (d ∷ ds) = suc (count ds)

-- `cert_from_fullchain`
unfoldable pub cert_from_fullchain : (List String → String) → List String → Result (String × String)
cert_from_fullchain joined [] = err (runtime_error (plain "failed to extract cert from fullchain"))
cert_from_fullchain joined (c ∷ []) =
    err (runtime_error (plain "failed to extract cert from fullchain"))
cert_from_fullchain joined (c ∷ d ∷ rest) = ok (c, joined (d ∷ rest))

abbrev month : ℕ
month = 2678400

-- There is a certificate that is valid for more than a month.
abbrev is_fresh : ℕ → Option ℕ → Bool
is_fresh now none = false
is_fresh now (some t) = ltb (now + month) t

-- `service_instance.new_certificate`, which may be `None`
unfoldable pub new_certificate_in : Option ℕ → List Certificate → Option Certificate
unfolding find_certificate
new_certificate_in none cs = none
new_certificate_in (some id) cs = find_certificate id cs

module _ {W : Type 0} (acme : Acme W) where
  unfoldable pub create_user : String → Act W (Unit {0})
  unfolding load tables_of call add_user save pure ◌>>=◌
  create_user id = do
    i ← load id
    elim i.acme_user_id [
      | some user ↦ pure tt
      | none ↦ do
        key ← call acme.generate_key
        (registration, uri) ← call (acme.new_account key "cloud-gov-operations@gsa.gov")
        t ← tables_of
        add_user (record {
          id = t.next_user_id;
          email = "cloud-gov-operations@gsa.gov";
          uri = uri;
          private_key_pem = key;
          registration_json = registration;
        })
        save (record i { acme_user_id = some t.next_user_id })
    ]

  unfoldable pub generate_private_key : String → Act W (Unit {0})
  unfolding load tables_of new_certificate_in call add_certificate save pure ◌>>=◌
  generate_private_key id = do
    i ← load id
    t ← tables_of
    elim (new_certificate_in i.new_certificate_id t.certificates) [
      | some c ↦ pure tt
      | none ↦ do
        key ← call acme.generate_key
        csr ← call (acme.make_csr key i.domain_names)
        add_certificate (record (new_certificate t.next_certificate_id i.id) {
          subject_alternative_names = i.domain_names;
          private_key_pem = some key;
          csr_pem = some csr;
        })
        save (record i { new_certificate_id = some t.next_certificate_id })
    ]

  unfoldable pub initiate_challenges : String → Act W (Unit {0})
  unfolding load new_certificate_of acme_user_of lift call tables_of challenges_for save_certificate
      add_challenges is_nothing pure ◌>>=◌
  initiate_challenges id = do
    i ← load id
    certificate ← new_certificate_of i
    if not (is_nothing certificate.order_json) then pure tt else (do
      user ← acme_user_of i
      csr ← lift (or_raise attribute_error certificate.csr_pem)
      order ← call (acme.new_order user csr)
      t ← tables_of
      challenges ← lift (challenges_for t.next_challenge_id certificate.id order i.domain_names)
      save_certificate (record certificate { order_json = some order.order_json })
      add_challenges challenges (t.next_challenge_id + count i.domain_names))

  -- The loop of `answer_challenges`.
  unfoldable pub answer_each : AcmeUser → List Challenge → Act W (Unit {0})
  unfolding call save_challenge pure ◌>>=◌
  answer_each user [] = pure tt
  answer_each user (c ∷ cs) =
      if acme.is_valid c.body_json
      then (do save_challenge (answered_one c); answer_each user cs)
      else (do
        call (acme.answer_challenge user c.body_json)
        save_challenge (answered_one c)
        answer_each user cs)

  unfoldable pub answer_challenges : String → Act W (Unit {0})
  unfolding load new_certificate_of acme_user_of tables_of challenges_of filter answer_each pure
      ◌>>=◌
  answer_challenges id = do
    i ← load id
    certificate ← new_certificate_of i
    t ← tables_of
    let unanswered =
        filter (λ (c : Challenge). not c.answered) (challenges_of certificate.id t.challenges)
    if is_empty unanswered then pure tt else (do user ← acme_user_of i; answer_each user unanswered)

  -- The end of `retrieve_certificate`.
  unfoldable pub store : ServiceInstance → Certificate → Finalized → Act W (Unit {0})
  unfolding lift cert_from_fullchain save save_certificate ◌>>=◌
  store i certificate f = do
    (leaf, chain) ← lift (cert_from_fullchain acme.joined (acme.certificates_in f.fullchain_pem))
    save i
    save_certificate (record certificate {
      leaf_pem = some leaf;
      fullchain_pem = some chain;
      expires_at = some (acme.not_after leaf);
      order_json = some f.order_json;
    })

  -- The handlers of `retrieve_certificate`.
  unfoldable pub handled : ServiceInstance → Certificate → AcmeUser → Finalizing → Act W (Unit {0})
  unfolding store call save delete_certificate pure raise ◌>>=◌
  handled i certificate user (finalized f) = store i certificate f
  handled i certificate user fulfilled =
      if is_fresh acme.now certificate.expires_at then pure tt else (do
        f ← call (acme.get_cert_for_finalized_order user certificate.order_json certificate.csr_pem)
        store i certificate f)
  handled i certificate user problem = raise (service_error "acme.messages.Error")
  handled i certificate user validation_error = do
    save (record i { new_certificate_id = none })
    delete_certificate certificate.id
    raise (service_error "acme.errors.ValidationError")

  unfoldable pub retrieve_certificate : String → Act W (Unit {0})
  unfolding load tables_of new_certificate_in acme_user_of is_nothing call handled pure raise ◌>>=◌
  retrieve_certificate id = do
    i ← load id
    t ← tables_of
    elim (new_certificate_in i.new_certificate_id t.certificates) [
      | none ↦ raise cancel_execution
      | some certificate ↦ if not (is_nothing certificate.leaf_pem) then pure tt else (do
        user ← acme_user_of i
        answer ← call (acme.poll_and_finalize user certificate.order_json certificate.csr_pem)
        handled i certificate user answer)
    ]
