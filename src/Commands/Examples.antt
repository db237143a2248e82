-- ===== src/Commands/Examples.antt =====
-- Tests of the commands: an instance with the certificate that it uses and two older ones.
use external_domain_broker.Prelude.{ℕ, String, some, List, [], ◌∷◌, ok, ◌≡◌, refl, All}
use external_domain_broker.Json.{Json, str}
use external_domain_broker.Models.{
  ServiceInstance, Certificate, InstanceType, new_instance, new_certificate,
}
use external_domain_broker.Tasks.Work.{Work}
use external_domain_broker.Tasks.Settings.{Settings}
use external_domain_broker.Tasks.Rules.{Ends}
use external_domain_broker.Tasks.Alb.{LoadBalancers}
use external_domain_broker.Tasks.Iam.{Iam}
use external_domain_broker.Commands.Duplicates.{remove_duplicate_alb_certs}
use external_domain_broker.Commands.Old.{IsOld, Spares}
use external_domain_broker.Commands.Kept.{KeepsReferred, remove_duplicate_alb_certs-Ends}

abbrev row : ServiceInstance
row = record (new_instance "i1" ("a.gov" ∷ []) InstanceType.alb) { current_certificate_id = some 2 }

abbrev certificate : ℕ → String → Certificate
certificate id arn = record (new_certificate id "i1") {
  iam_server_certificate_arn = str arn;
  iam_server_certificate_name = str arn;
}

abbrev start : Work (List Json)
start = record {
  world = [];
  tables = record {
    instances = row ∷ [];
    certificates = certificate 1 "c1" ∷ certificate 2 "c2" ∷ certificate 3 "c3" ∷ [];
    challenges = [];
    albs = [];
    listeners = [];
    next_certificate_id = 4;
    users = [];
    next_user_id = 1;
    next_challenge_id = 1;
  };
}

abbrev settings : Settings
settings = record {
  aws_poll_max_attempts = 2;
  cdn_log_bucket = "logs";
  dns_root_domain = "dns.gov";
  aws_resource_prefix = "dev";
  alb_listener_arns = "l1" ∷ [];
  max_certs_per_alb = 2;
  alb_iam_server_certificate_prefix = "/alb/";
  cloudfront_iam_server_certificate_prefix = "/cloudfront/";
  waf_rate_limit_rule_group_arn = "group";
  alb_waf_cloudwatch_log_group_arn = "alb-logs";
  cdn_waf_cloudwatch_log_group_arn = "cdn-logs";
}

abbrev balancers : LoadBalancers (List Json)
balancers = record {
  describe_listener_certificates = λ arn w. (ok ("c1" ∷ "c2" ∷ []), w);
  listener_certificate_pages = λ arn w. (ok [], w);
  describe_listeners = λ arn w. (ok [], w);
  describe_load_balancers = λ arn w. (ok [], w);
  add_listener_certificates = λ listener arn w. (ok tt, w);
  remove_listener_certificates = λ listener arn w. (ok tt, w);
}

-- IAM with the names that were deleted.
abbrev iam : Iam (List Json)
iam = record {
  upload_server_certificate = λ path name c w. (ok (str "id", str "arn"), w);
  get_server_certificate = λ name w. (ok (str "id", str "arn"), w);
  tag_server_certificate = λ name tags w. (ok tt, w);
  delete_server_certificate = λ name w. (ok tt, name ∷ w);
}

-- Every name that was deleted is that of an old certificate.
abbrev OnlyOld : List Json → Type 0
OnlyOld w =
    All
      (λ (n : Json). (c : Certificate) × IsOld start.tables c × (c.iam_server_certificate_name ≡ n))
      w

spares : Spares balancers iam OnlyOld (IsOld start.tables)
spares = record {
  certificates = record {
    looks = λ name w p. p;
    deletes = λ c w a p. ((c, a, refl), p);
    is_deleted = λ name w w' h. tt;
    is_missing = λ name w w' e h k. tt;
    stays_at_look = λ n m w g. tt;
    stays_at_deletion = λ n m w g. tt;
  };
  describes = λ l w p. p;
  removes = λ c l w a p. p;
}

remove_duplicate_alb_certs-Ends_example :
    Ends
      (λ u. KeepsReferred start.tables u.tables × OnlyOld u.world)
      (λ a u. KeepsReferred start.tables u.tables × OnlyOld u.world)
      (remove_duplicate_alb_certs balancers iam settings [] ("l1" ∷ []) [] start)
remove_duplicate_alb_certs-Ends_example =
    remove_duplicate_alb_certs-Ends balancers iam settings OnlyOld start spares [] ("l1" ∷ []) [] tt
