-- ===== src/Tasks/Examples/Dns.antt =====
-- Health checks with a Route 53 that gives each check its domain as its id.
use external_domain_broker.Prelude.{
  ℕ, String, some, List, [], ◌∷◌, Result, ok, refl, sym, ap, ok_same,
}
use external_domain_broker.Models.{ServiceInstance, HealthCheck, InstanceType, new_instance, find}
use external_domain_broker.Tasks.Work.{Work, ◌>>◌}
use external_domain_broker.Tasks.Rules.{Ends}
use external_domain_broker.Tasks.Route53.{Route53}
use external_domain_broker.Tasks.HealthChecks.{
  create_new_health_checks, delete_unused_health_checks,
}
use external_domain_broker.Tasks.HealthChecks.Created.{Naming}
use external_domain_broker.Tasks.HealthChecks.Settled.{IsReady, HasExactly, settle-Ends}

-- The world counts the calls.
abbrev dns : Route53 ℕ
dns = record {
  change_records = λ batch w. (ok "change", ℕ.suc w);
  wait_changed = λ change w. (ok tt, ℕ.suc w);
  create_health_check = λ reference domain w. (ok domain, ℕ.suc w);
  tag_health_check = λ id tags w. (ok tt, ℕ.suc w);
  delete_health_check = λ id w. (ok tt, ℕ.suc w);
}

abbrev same : String → String
same id = id

naming : Naming dns same
naming = record {
  created = λ reference domain id w w' h. sym (ok_same (ap (λ (x : Result String × ℕ). x.0) h));
}

abbrev check : String → HealthCheck
check domain = record { domain_name = domain; health_check_id = domain }

abbrev domains : List String
domains = "a.gov" ∷ "b.gov" ∷ []

abbrev row : ServiceInstance
row = record (new_instance "i1" domains InstanceType.cdn_dedicated_waf) {
  route53_health_checks = some (check "b.gov" ∷ check "c.gov" ∷ []);
}

abbrev start : Work ℕ
start = record {
  world = 0;
  tables = record {
    instances = row ∷ [];
    certificates = [];
    challenges = [];
    albs = [];
    listeners = [];
    next_certificate_id = 1;
    users = [];
    next_user_id = 1;
    next_challenge_id = 1;
  };
}

ready : IsReady same "i1" domains start
unfolding find
ready = record { row = row; stored = refl; domains = refl; named = (refl, (refl, tt)) }

settle-Ends_example :
    Ends
      (IsReady same "i1" domains)
      (λ a. HasExactly same "i1" domains)
      ((create_new_health_checks dns "i1" >> delete_unused_health_checks dns "i1") start)
settle-Ends_example = settle-Ends same "i1" domains dns naming start ready
