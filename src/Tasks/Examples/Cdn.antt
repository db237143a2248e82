-- ===== src/Tasks/Examples/Cdn.antt =====
-- Distributions with a CloudFront that has at most one.
use external_domain_broker.Prelude.{
  ℕ, suc, Bool, true, false, some, [], ◌∷◌, Result, ok, err, aws_error, ◌≡◌, refl, sym, ap, subst,
  arith, ok_same, ltb,
}
use external_domain_broker.Json.{Json, null, str, bool, truthy, Params}
use external_domain_broker.Json.Dicts.{dict, subscript}
use external_domain_broker.Models.{
  ServiceInstance, InstanceType, new_instance, new_certificate, find,
}
use external_domain_broker.Tasks.Work.{Work, Tables}
use external_domain_broker.Tasks.Settings.{Settings}
use external_domain_broker.Tasks.CloudFront.Behavior.{
  entry, default_cache_behavior, update_default_cache_behavior,
}
use external_domain_broker.Tasks.CloudFront.Exclusive.{
  IsConsistent, update_default_cache_behavior-IsConsistent,
}
use external_domain_broker.Tasks.CloudFront.Steps.{
  CloudFront, create_distribution, wait_for_distribution_disabled,
}
use external_domain_broker.Tasks.CloudFront.Again.{Keeps, create_distribution_idem}
use external_domain_broker.Tasks.CloudFront.Waits.{
  AnswersInOrder, HasWaited, wait_for_distribution_disabled-HasWaited,
}

abbrev pub settings : Settings
settings = record {
  aws_poll_max_attempts = 3;
  cdn_log_bucket = "logs";
  dns_root_domain = "dns.gov";
  aws_resource_prefix = "dev";
  alb_listener_arns = "l1" ∷ "l2" ∷ [];
  max_certs_per_alb = 2;
  alb_iam_server_certificate_prefix = "/alb/";
  cloudfront_iam_server_certificate_prefix = "/cloudfront/";
  waf_rate_limit_rule_group_arn = "group";
  alb_waf_cloudwatch_log_group_arn = "alb-logs";
  cdn_waf_cloudwatch_log_group_arn = "cdn-logs";
}

abbrev row : ServiceInstance
row = record (new_instance "i1" ("a.gov" ∷ []) InstanceType.cdn) {
  new_certificate_id = some 7;
  error_responses = dict (entry "404" (str "/404.html") ∷ []);
}

abbrev managed_row : ServiceInstance
managed_row = record row { cache_policy_id = some "policy" }

abbrev params : Result Params → Params
params (ok d) = d
params (err e) = []

abbrev managed_behavior : Params
unfolding update_default_cache_behavior default_cache_behavior
managed_behavior = params (update_default_cache_behavior managed_row default_cache_behavior)

update_default_cache_behavior-IsConsistent_example :
    IsConsistent default_cache_behavior managed_behavior
unfolding update_default_cache_behavior managed_behavior default_cache_behavior
update_default_cache_behavior-IsConsistent_example =
    update_default_cache_behavior-IsConsistent managed_row default_cache_behavior managed_behavior
      refl

abbrev tables : ServiceInstance → Tables
tables i = record {
  instances = i ∷ [];
  certificates = new_certificate 7 "i1" ∷ [];
  challenges = [];
  albs = [];
  listeners = [];
  next_certificate_id = 8;
  users = [];
  next_user_id = 1;
  next_challenge_id = 1;
}

abbrev made : Json
made =
    dict (entry "ARN" (str "arn") ∷ entry "Id" (str "E1") ∷ entry "DomainName" (str "d.net") ∷ [])

-- The world is whether the distribution is there.
abbrev look : Bool → Result Json × Bool
look true = (ok null, true)
look false = (err (aws_error "NoSuchDistribution" ""), false)

abbrev cdn : CloudFront Bool
cdn = record {
  get_distribution = λ id w. look w;
  get_distribution_config = λ id w. (ok null, w);
  create_distribution_with_tags =
      λ config tags w. (ok (dict (entry "Distribution" made ∷ [])), true);
  update_distribution = λ id config etag w. (ok tt, w);
  delete_distribution = λ id etag w. (ok tt, false);
  wait_deployed = λ id w. (ok tt, w);
  tag_resource = λ arn tags w. (ok tt, w);
}

its_id :
    (response distribution id : Json)
    → dict (entry "Distribution" made ∷ []) ≡ response
    → subscript "Distribution" response ≡ ok distribution
    → subscript "Id" distribution ≡ ok id
    → str "E1" ≡ id
unfolding subscript
its_id response distribution id e d i =
    let d' = subst (λ r. subscript "Distribution" r ≡ ok distribution) (sym e) d in
    ok_same (subst (λ (v : Json). subscript "Id" v ≡ ok id) (sym (ok_same d')) i)

looked : (w w' : Bool) (r : Result Json) → look w ≡ (r, w') → w' ≡ w
looked true w' r h = sym (ap (λ (x : Result Json × Bool). x.1) h)
looked false w' r h = sym (ap (λ (x : Result Json × Bool). x.1) h)

is_there : (w' : Bool) → true ≡ w' → (x : Json) × (look w' ≡ (ok x, w'))
is_there true e = (null, refl)
is_there false e = absurd (ground arith)

keeps : Keeps cdn
unfolding subscript
keeps = record {
  reads = λ d w w' r h. looked w w' r h;
  created = λ config response distribution id tags w w' h d i. (
    subst (λ v. truthy v ≡ true)
        (its_id response distribution id (ok_same (ap (λ (x : Result Json × Bool). x.0) h)) d i)
        refl,
    is_there w' (ap (λ (x : Result Json × Bool). x.1) h),
  );
}

abbrev start : Work Bool
start = record { world = false; tables = tables row }

abbrev created : Work Bool
unfolding create_distribution
created = (create_distribution cdn settings "i1" start).1

create_distribution_idem_example : create_distribution cdn settings "i1" created ≡ (ok tt, created)
unfolding create_distribution created
create_distribution_idem_example =
    create_distribution_idem cdn settings keeps "i1" start created refl

-- The distribution is found deployed and disabled at the third call.
abbrev status : Bool → Json
status enabled = dict (
    entry "Distribution" (
      dict (
        entry "DistributionConfig" (dict (entry "Enabled" (bool enabled) ∷ []))
        ∷ entry "Status" (str "Deployed")
        ∷ []))
    ∷ [])

abbrev answers : ℕ → Result Json
answers n = ok (status (ltb n 2))

abbrev slow : CloudFront ℕ
slow = record {
  get_distribution = λ id n. (answers n, suc n);
  get_distribution_config = λ id n. (ok null, n);
  create_distribution_with_tags = λ config tags n. (ok null, n);
  update_distribution = λ id config etag n. (ok tt, n);
  delete_distribution = λ id etag n. (ok tt, n);
  wait_deployed = λ id n. (ok tt, n);
  tag_resource = λ arn tags n. (ok tt, n);
}

in_order : AnswersInOrder slow answers
in_order = record { answered = λ d n. refl }

abbrev deleted_row : ServiceInstance
deleted_row = record row { cloudfront_distribution_id = str "E1" }

abbrev waiting : Work ℕ
waiting = record { world = 0; tables = tables deleted_row }

wait_for_distribution_disabled-HasWaited_example :
    HasWaited slow settings answers in_order 0 3
      (wait_for_distribution_disabled slow settings "i1" waiting)
unfolding find
wait_for_distribution_disabled-HasWaited_example =
    wait_for_distribution_disabled-HasWaited slow settings answers in_order "i1" deleted_row waiting
      refl refl
