-- ===== src/Tasks/Examples/Orders.antt =====
-- An instance with a certificate that is in use and one that is waited for.
use external_domain_broker.Prelude.{
  ℕ, suc, false, none, some, List, [], ◌∷◌, Result, ok, ◌≡◌, ◌⊎◌, inl, inr, refl, ap, subst, arith,
  All,
}
use external_domain_broker.Json.{Json, str}
use external_domain_broker.Models.{
  ServiceInstance, Certificate, InstanceType, new_instance, new_certificate, find,
}
use external_domain_broker.Tasks.Work.{Work, AcmeUser, find_certificate}
use external_domain_broker.Tasks.Rules.{Ends}
use external_domain_broker.Tasks.Iam.{Iam, delete_previous}
use external_domain_broker.Tasks.Iam.Deletes.{Deletes}
use external_domain_broker.Tasks.Iam.Kept.{IsDeletable, HasKept, delete_previous-Ends}
use external_domain_broker.Tasks.Acme.{Acme, validation_error, is_nothing, acme_user_of}
use external_domain_broker.Tasks.Acme.Orders.{retrieve_certificate, new_certificate_in}
use external_domain_broker.Tasks.Acme.Retried.{IsWaiting, HasFailed, retrieve_certificate-HasFailed}

abbrev row : ServiceInstance
row = record (new_instance "i1" ("a.gov" ∷ []) InstanceType.alb) {
  acme_user_id = some 1;
  current_certificate_id = some 1;
  new_certificate_id = some 2;
}

abbrev waited : Certificate
waited = record (new_certificate 2 "i1") { order_json = some "order"; csr_pem = some "csr" }

abbrev user : AcmeUser
user = record {
  id = 1;
  email = "a@gov";
  uri = "uri";
  private_key_pem = "key";
  registration_json = "{}";
}

abbrev start : Work ℕ
start = record {
  world = 0;
  tables = record {
    instances = row ∷ [];
    certificates = new_certificate 1 "i1" ∷ waited ∷ [];
    challenges = [];
    albs = [];
    listeners = [];
    next_certificate_id = 3;
    users = user ∷ [];
    next_user_id = 2;
    next_challenge_id = 1;
  };
}

-- The same once the certificate of id 2 is the current one.
abbrev renewed_row : ServiceInstance
renewed_row = record row { current_certificate_id = some 2; new_certificate_id = none }

abbrev renewed : Work (List Json)
renewed = record { world = []; tables = record start.tables { instances = renewed_row ∷ [] } }

-- IAM with the names that were deleted.
abbrev pub logging_iam : Iam (List Json)
logging_iam = record {
  upload_server_certificate = λ path name c w. (ok (str "id", str "arn"), w);
  get_server_certificate = λ name w. (ok (str "id", str "arn"), w);
  tag_server_certificate = λ name tags w. (ok tt, w);
  delete_server_certificate = λ name w. (ok tt, name ∷ w);
}

abbrev pub Among : Json → List Json → Type 0
Among n [] = ⊥
Among n (m ∷ w) = (n ≡ m) ⊎ Among n w

-- Every name that was deleted is that of a certificate for which `A` holds.
abbrev pub Only : (Certificate → Type 0) → List Json → Type 0
Only A w = All (λ (n : Json). (c : Certificate) × A c × (c.iam_server_certificate_name ≡ n)) w

pub logs_deletions : (A : Certificate → Type 0) → Deletes logging_iam (Only A) A Among
logs_deletions A = record {
  looks = λ name w p. p;
  deletes = λ c w a p. ((c, a, refl), p);
  is_deleted = λ name w w' h.
      subst (Among name) (ap (λ (x : Result (Unit {0}) × List Json). x.1) h) (inl refl);
  is_missing = λ name w w' e h k. absurd (ground arith);
  stays_at_look = λ n m w g. g;
  stays_at_deletion = λ n m w g. inr g;
}

delete_previous-Ends_example :
    Ends
      (λ u. (u.tables ≡ renewed.tables) × Only (IsDeletable renewed_row renewed.tables) u.world)
      (λ a u.
        Only (IsDeletable renewed_row renewed.tables) u.world
        × HasKept Among renewed_row renewed.tables u)
      (delete_previous logging_iam renewed_row renewed)
delete_previous-Ends_example =
    delete_previous-Ends logging_iam (Only (IsDeletable renewed_row renewed.tables)) Among
      renewed_row renewed (logs_deletions (IsDeletable renewed_row renewed.tables)) tt

abbrev acme : Acme ℕ
acme = record {
  generate_key = λ w. (ok "key", suc w);
  make_csr = λ key domains w. (ok "csr", suc w);
  new_account = λ key email w. (ok ("{}", "uri"), suc w);
  new_order = λ u csr w. (ok (record { order_json = "order"; authorizations = [] }), suc w);
  answer_challenge = λ u body w. (ok tt, suc w);
  poll_and_finalize = λ u order csr w. (ok validation_error, suc w);
  get_cert_for_finalized_order =
      λ u order csr w. (ok (record { order_json = "order"; fullchain_pem = "" }), suc w);
  is_valid = λ body. false;
  certificates_in = λ chain. [];
  not_after = λ leaf. 0;
  joined = λ pems. "";
  now = 0;
}

waiting : IsWaiting acme "i1" row waited user start
unfolding find find_certificate new_certificate_in is_nothing acme_user_of
waiting = record { stored = refl; certificate = refl; no_leaf = refl; of_user = refl }

retrieve_certificate-HasFailed_example :
    HasFailed acme "i1" row waited user (retrieve_certificate acme "i1" start)
retrieve_certificate-HasFailed_example =
    retrieve_certificate-HasFailed acme "i1" row waited user start 1 waiting refl
