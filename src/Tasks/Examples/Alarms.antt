-- ===== src/Tasks/Examples/Alarms.antt =====
-- An instance with a health check, a topic and a taken name for its web ACL.
use external_domain_broker.Prelude.{
  ℕ, suc, String, some, List, [], ◌∷◌, ok, err, aws_error, ◌≡◌, refl, map, ◌⊎◌, inl, inr, ◌++◌,
  Result, ap, subst, arith, All,
}
use external_domain_broker.Json.{str}
use external_domain_broker.Models.{
  ServiceInstance, HealthCheck, InstanceType, Tag, new_instance, find,
}
use external_domain_broker.Tasks.Work.{Work, ◌>>◌}
use external_domain_broker.Tasks.Rules.{Ends}
use external_domain_broker.Tasks.Shield.{Shield, update_associated_health_check}
use external_domain_broker.Tasks.Shield.Associated.{
  Associates, HasAssociated, update_associated_health_check-Ends,
}
use external_domain_broker.Tasks.CloudWatch.{CloudWatch, Metric, delete_health_check_alarms}
use external_domain_broker.Tasks.CloudWatch.Alarms.{
  alarm_of, Remembers, Unwatched, delete_health_check_alarms-Ends,
}
use external_domain_broker.Tasks.Waf.{
  Waf, create_cdn_web_acl, put_cdn_waf_logging_configuration, delete_web_acl,
}
use external_domain_broker.Tasks.Waf.Stored.{create_cdn_web_acl_lem}
use external_domain_broker.Tasks.Examples.Cdn.{settings}

abbrev check : String → HealthCheck
check domain = record { domain_name = domain; health_check_id = domain }

abbrev checks : List HealthCheck
checks = check "a.gov" ∷ check "b.gov" ∷ []

abbrev row : ServiceInstance
row = record (new_instance "i1" ("a.gov" ∷ "b.gov" ∷ []) InstanceType.cdn_dedicated_waf) {
  route53_health_checks = some checks;
  sns_notification_topic_arn = some "topic";
  shield_associated_health_check =
      some (record { domain_name = "c.gov"; health_check_id = "c.gov"; protection_id = "p" });
  cloudfront_distribution_arn = str "arn";
}

abbrev start : Work ℕ
start = record {
  world = 0;
  tables = record {
    instances = row ∷ [];
    certificates = [];
    challenges = [];
    albs = [];
    listeners = [];
    next_certificate_id = 1;
    users = [];
    next_user_id = 1;
    next_challenge_id = 1;
  };
}

abbrev Any : {W : Type 0} → Work W → Type 0
Any s = Unit

abbrev Among : {A : Type 0} → A → List A → Type 0
Among x [] = ⊥
Among x (y ∷ l) = (x ≡ y) ⊎ Among x l

-- Shield with what was associated and what was removed.
abbrev Associations : Type 0
Associations = List (String × String) × List (String × String)

abbrev shield : Shield Associations
shield = record {
  list_protections =
      λ w. (ok ((record { resource_arn = some "arn"; protection_id = some "p" } ∷ []) ∷ []), w);
  associate_health_check = λ id arn w. (ok tt, ((id, arn) ∷ w.0, w.1));
  disassociate_health_check = λ id arn w. (ok tt, (w.0, (id, arn) ∷ w.1));
}

abbrev IsMade : String → String → Associations → Type 0
IsMade id arn w = Among (id, arn) (w.0)

abbrev IsCut : String → String → Associations → Type 0
IsCut id arn w = Among (id, arn) (w.1)

associates : Associates shield IsMade IsCut
associates = record {
  is_associated = λ p a w w' h.
      subst (IsMade p a) (ap (λ (x : Result (Unit {0}) × Associations). x.1) h) (inl refl);
  is_removed = λ p a w w' h.
      subst (IsCut p a) (ap (λ (x : Result (Unit {0}) × Associations). x.1) h) (inl refl);
  is_missing = λ p a w w' e h k. absurd (ground arith);
  stays_at_list = λ p a w x. x;
  stays_at_association = λ p a q b w x. x;
}

abbrev unprotected : Work Associations
unprotected = record { world = ([], []); tables = start.tables }

update_associated_health_check-Ends_example :
    Ends
      (λ u. Unit)
      (λ a. HasAssociated shield [] IsMade IsCut associates "i1" row)
      (update_associated_health_check shield [] "i1" unprotected)
unfolding find
update_associated_health_check-Ends_example =
    update_associated_health_check-Ends shield [] IsMade IsCut associates "i1" row unprotected refl

-- CloudWatch with the names that were put and those that were deleted.
abbrev Told : Type 0
Told = List (String × String × List Tag × Metric) × List String

abbrev watch : CloudWatch Told
watch = record {
  put_metric_alarm = λ name topic tags metric w. (ok tt, ((name, topic, tags, metric) ∷ w.0, w.1));
  wait_exists = λ name w. (ok tt, w);
  delete_alarms = λ names w. (ok tt, (w.0, names ++ w.1));
}

abbrev IsPut : String → String → List Tag → Metric → Told → Type 0
IsPut name topic tags metric w = Among (name, topic, tags, metric) (w.0)

abbrev IsDeleted : String → Told → Type 0
IsDeleted name w = Among name (w.1)

later :
    (m : String) (l done : List String)
    → All (λ (n : String). Among n l) done
    → All (λ (n : String). Among n (m ∷ l)) done
later m l [] h = tt
later m l (n ∷ done) (x, h) = (inr x, later m l done h)

All-Among : (names rest : List String) → All (λ (n : String). Among n (names ++ rest)) names
All-Among [] rest = tt
All-Among (n ∷ names) rest = (inl refl, later n (names ++ rest) names (All-Among names rest))

remembers : Remembers watch IsPut IsDeleted
remembers = record {
  is_put = λ name topic tags m w w' h.
      subst (IsPut name topic tags m) (ap (λ (x : Result (Unit {0}) × Told). x.1) h) (inl refl);
  stays_at_put = λ name topic tags m w other to with_tags k g. inr g;
  stays_at_wait = λ name topic tags m w other g. g;
  is_deleted = λ names w w' h.
      subst (λ (v : Told). All (λ n. IsDeleted n v) names)
        (ap (λ (x : Result (Unit {0}) × Told). x.1) h) (All-Among names (w.1));
  is_missing = λ names w w' e h k. absurd (ground arith);
}

abbrev quiet : Work Told
quiet = record { world = ([], []); tables = start.tables }

-- The instance with an alarm for each check.
abbrev watched : ServiceInstance
watched = record row {
  cloudwatch_health_check_alarms = some (map (alarm_of watch settings) checks);
}

abbrev noisy : Work Told
noisy = record { world = ([], []); tables = record start.tables { instances = watched ∷ [] } }

delete_health_check_alarms-Ends_example :
    Ends Any
      (Unwatched watch settings IsPut IsDeleted remembers "i1" watched)
      (delete_health_check_alarms watch settings "i1" noisy)
unfolding find
delete_health_check_alarms-Ends_example =
    delete_health_check_alarms-Ends watch settings IsPut IsDeleted remembers "i1" watched noisy refl

abbrev waf : Waf ℕ
waf = record {
  create_web_acl =
      λ name scope rules tags w. (err (aws_error "WAFDuplicateItemException" "taken"), suc w);
  get_web_acl = λ name id scope w. (ok "token", suc w);
  delete_web_acl = λ name id scope token w. (ok tt, suc w);
  associate_web_acl = λ acl resource w. (ok tt, suc w);
  put_logging_configuration = λ acl group w. (ok tt, suc w);
}

create_cdn_web_acl_lem_example :
    (create_cdn_web_acl waf settings "i1"
        >> put_cdn_waf_logging_configuration waf settings "i1"
        >> delete_web_acl waf settings "i1")
      start
    ≡ (ok tt, record start { world = 1 })
unfolding find
create_cdn_web_acl_lem_example =
    create_cdn_web_acl_lem waf settings "i1" row 1 "taken" refl start refl refl refl
