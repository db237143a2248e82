-- ===== src/Tasks/Waf.antt =====
-- broker/tasks/waf.py
pub mod Stored
use Prim.Native.String
use external_domain_broker.Prelude.{
  ℕ, String, string_eq, ◌==◌, Bool, true, false, not, ◌||◌, ◌&&◌, Option, none, some, List, [], ◌∷◌,
  Result, ok, err, Error, aws_error, runtime_error, plain, filter, if◌then◌else◌,
}
use external_domain_broker.Json.{Json, num, str, bool, is_str}
use external_domain_broker.Json.Dicts.{dict}
use external_domain_broker.Models.{ServiceInstance, Tag, is_cdn_dedicated_waf_instance}
use external_domain_broker.Tasks.Work.{
  Work, Act, Service, Tables, DedicatedAlb, ◌>>=◌, ◌>>◌, pure, raise, call, lift, tried, load, save,
  is_set, has_code, tables_of,
}
use external_domain_broker.Tasks.HealthChecks.{listed}
use external_domain_broker.Tasks.Settings.{Settings}
use external_domain_broker.Tasks.Polling.{poll}
use external_domain_broker.Tasks.Alb.{first_of}
use external_domain_broker.Tasks.Sns.{text_in}
use external_domain_broker.Tasks.CloudFront.Behavior.{entry}

-- What a web ACL is for: `CLOUDFRONT` or `REGIONAL`.
pub data Scope : Type 0 where
  cloudfront regional : Scope

-- The summary of a web ACL.
pub record Summary : Type 0 where
  pub arn : String
  pub id : String
  pub name : String

-- The calls of a client for web ACLs.
pub record Waf (W : Type 0) : Type 0 where
  -- with the name, the scope, the rules and the tags, if there are any
  pub create_web_acl : String → Scope → List Json → Option (List Tag) → Service W Summary
  -- with the name, the id and the scope; the lock token
  pub get_web_acl : String → String → Scope → Service W String
  pub delete_web_acl : String → String → Scope → String → Service W (Unit {0})
  -- with the ARNs of the web ACL and of the resource
  pub associate_web_acl : String → String → Service W (Unit {0})
  -- with the ARNs of the web ACL and of the log group
  pub put_logging_configuration : String → String → Service W (Unit {0})

-- The columns that an instance and a load balancer have both.
pub record Acl : Type 0 where
  pub arn : Option String
  pub id : Option String
  pub name : Option String

abbrev pub acl_of : ServiceInstance → Acl
acl_of i = record {
  arn = i.dedicated_waf_web_acl_arn;
  id = i.dedicated_waf_web_acl_id;
  name = i.dedicated_waf_web_acl_name;
}

abbrev pub with_acl : Acl → ServiceInstance → ServiceInstance
with_acl a i = record i {
  dedicated_waf_web_acl_arn = a.arn;
  dedicated_waf_web_acl_id = a.id;
  dedicated_waf_web_acl_name = a.name;
}

abbrev alb_acl : DedicatedAlb → Acl
alb_acl d = record {
  arn = d.dedicated_waf_web_acl_arn;
  id = d.dedicated_waf_web_acl_id;
  name = d.dedicated_waf_web_acl_name;
}

abbrev alb_with_acl : Acl → DedicatedAlb → DedicatedAlb
alb_with_acl a d = record d {
  dedicated_waf_web_acl_arn = a.arn;
  dedicated_waf_web_acl_id = a.id;
  dedicated_waf_web_acl_name = a.name;
}

abbrev pub is_whole : Acl → Bool
is_whole a = is_set a.arn && is_set a.id && is_set a.name

abbrev visibility : String → Json
visibility metric = dict (
    entry "SampledRequestsEnabled" (bool true)
    ∷ entry "CloudWatchMetricsEnabled" (bool true)
    ∷ entry "MetricName" (str metric)
    ∷ [])

abbrev no_override : Json
no_override = dict (entry "None" (dict []) ∷ [])

-- A rule, with its priority, its statement and its metric.
abbrev rule : String → ℕ → Json → String → Json
rule name priority statement metric = dict (
    entry "Name" (str name)
    ∷ entry "Priority" (num priority)
    ∷ entry "Statement" statement
    ∷ entry "OverrideAction" no_override
    ∷ entry "VisibilityConfig" (visibility metric)
    ∷ [])

-- A group of rules that AWS manages.
abbrev managed_group : String → Json
managed_group name = dict (
    entry "ManagedRuleGroupStatement"
      (dict (entry "VendorName" (str "AWS") ∷ entry "Name" (str name) ∷ []))
    ∷ [])

-- `_get_web_acl_rules` of an instance
unfoldable pub cdn_rules : Settings → String → List Json
cdn_rules settings name =
    rule "RateLimit" 1000
      (dict (
        entry "RuleGroupReferenceStatement"
          (dict (entry "ARN" (str settings.waf_rate_limit_rule_group_arn) ∷ []))
        ∷ []))
      (String.◌++◌ name "-rate-limit-rule-group")
    ∷ []

-- `_get_web_acl_rules` of a load balancer
unfoldable pub alb_rules : String → List Json
alb_rules name =
    rule "AWS-AWSManagedRulesAnonymousIpList" 10 (managed_group "AWSManagedRulesAnonymousIpList")
      (String.◌++◌ name "-AWS-AWSManagedRulesAnonymousIpList")
    ∷ rule "AWS-AWSManagedRulesAmazonIpReputationList" 20
        (managed_group "AWSManagedRulesAmazonIpReputationList")
        (String.◌++◌ name "-AWS-ManagedRulesAmazonIpReputationList")
    ∷ rule "AWS-KnownBadInputsRuleSet" 30 (managed_group "AWSManagedRulesKnownBadInputsRuleSet")
        (String.◌++◌ name "-AWS-KnownBadInputsRuleSet")
    ∷ rule "AWSManagedRule-CoreRuleSet" 40 (managed_group "AWSManagedRulesCommonRuleSet")
        (String.◌++◌ name "-AWS-AWSManagedRulesCommonRuleSet")
    ∷ []

-- `generate_web_acl_name`
unfoldable pub cdn_acl_name : Settings → ServiceInstance → String
cdn_acl_name settings i =
    String.◌++◌ settings.aws_resource_prefix
      (String.◌++◌ "-cdn-" (String.◌++◌ i.id "-dedicated-waf"))

unfoldable pub alb_acl_name : Settings → DedicatedAlb → String
alb_acl_name settings d =
    String.◌++◌ settings.aws_resource_prefix
      (String.◌++◌ "-dedicated-org-alb-" (String.◌++◌ d.dedicated_org "-waf"))

unfoldable pub write_alb : DedicatedAlb → List DedicatedAlb → List DedicatedAlb
write_alb d [] = []
write_alb d (e ∷ es) =
    let rest = write_alb d es in if e.alb_arn == d.alb_arn then d ∷ es else e ∷ rest

abbrev is_of : Option String → String → Bool
is_of none org = false
is_of (some o) org = org == o

module _ {W : Type 0} where
  unfoldable pub save_alb : DedicatedAlb → Act W (Unit {0})
  unfolding write_alb
  save_alb d s = (ok tt, record s { tables = record s.tables { albs = write_alb d s.tables.albs } })

  -- `_find_dedicated_alb_for_instance`
  unfoldable pub find_dedicated_alb : ServiceInstance → Act W DedicatedAlb
  unfolding tables_of lift raise filter pure ◌>>=◌
  find_dedicated_alb i = do
    t ← tables_of
    elim (filter
        (λ (d : DedicatedAlb). is_of i.org_id d.dedicated_org && is_str d.alb_arn i.alb_arn)
        t.albs) [
          | [] ↦ raise (runtime_error (plain "Could not find dedicated ALB listener for org"))
          | d ∷ ds ↦ pure d
        ]

module _ {W : Type 0} (waf : Waf W) (settings : Settings) where
  -- The middle of `create_web_acl`: a duplicate is no failure, and gives no summary.
  unfoldable pub made_acl : String → Scope → List Json → Option (List Tag) → Act W (Option Summary)
  unfolding tried call pure raise has_code ◌>>=◌
  made_acl name scope rules tags = do
    answer ← tried (call (waf.create_web_acl name scope rules tags))
    elim answer [
      | ok made ↦ pure (some made)
      | err e ↦ if has_code "WAFDuplicateItemException" e then pure none else raise e
    ]

  abbrev pub summarized : Summary → Acl
  summarized s = record { arn = some s.arn; id = some s.id; name = some s.name }

  -- `create_web_acl` for an instance; the value tells whether there was one already.
  unfoldable pub create_instance_acl : Bool → ServiceInstance → Act W Bool
  unfolding made_acl cdn_acl_name cdn_rules save pure raise ◌>>=◌
  create_instance_acl force i =
      if not force && is_whole (acl_of i)
      then pure true
      else if not (is_cdn_dedicated_waf_instance i.instance_type)
      then raise (runtime_error (plain "unrecognized instance type"))
      else (do
        let name = cdn_acl_name settings i
        made ← made_acl name cloudfront (cdn_rules settings name) i.tags
        elim made [
          | none ↦ pure true
          | some summary ↦ do save (with_acl (summarized summary) i); pure false
        ])

  -- The same for a load balancer.
  unfoldable pub create_balancer_acl : Bool → DedicatedAlb → Act W Bool
  unfolding made_acl alb_acl_name alb_rules save_alb pure ◌>>=◌
  create_balancer_acl force d = if not force && is_whole (alb_acl d) then pure true else (do
    let name = alb_acl_name settings d
    made ← made_acl name regional (alb_rules name) d.tags
    elim made [
      | none ↦ pure true
      | some summary ↦ do save_alb (alb_with_acl (summarized summary) d); pure false
    ])

  unfoldable pub create_alb_web_acl : String → Act W (Unit {0})
  unfolding load find_dedicated_alb create_balancer_acl pure ◌>>=◌
  create_alb_web_acl id = do
    i ← load id
    d ← find_dedicated_alb i
    there ← create_balancer_acl false d
    pure tt

  unfoldable pub create_cdn_web_acl : String → Act W (Unit {0})
  unfolding load create_instance_acl pure ◌>>=◌
  create_cdn_web_acl id = do i ← load id; there ← create_instance_acl false i; pure tt

  -- `associate_web_acl`
  unfoldable pub associate_web_acl : DedicatedAlb → Option String → String → Act W (Unit {0})
  unfolding call save_alb pure ◌>>=◌
  associate_web_acl d acl_arn resource_arn =
      if not (is_set acl_arn) then pure tt else if resource_arn == "" then pure tt else (do
        call (waf.associate_web_acl (text_in acl_arn) resource_arn)
        save_alb (record d { dedicated_waf_associated = true }))

  unfoldable pub associate_alb_web_acl : String → Act W (Unit {0})
  unfolding load find_dedicated_alb associate_web_acl pure ◌>>=◌
  associate_alb_web_acl id = do
    i ← load id
    d ← find_dedicated_alb i
    if d.dedicated_waf_associated
        then pure tt
        else associate_web_acl d d.dedicated_waf_web_acl_arn d.alb_arn

  -- `put_waf_logging_configuration`
  unfoldable pub put_waf_logging_configuration : Option String → String → Act W (Unit {0})
  unfolding call pure
  put_waf_logging_configuration acl_arn log_group =
      if not (is_set acl_arn)
      then pure tt
      else call (waf.put_logging_configuration (text_in acl_arn) log_group)

  unfoldable pub put_alb_waf_logging_configuration : String → Act W (Unit {0})
  unfolding load find_dedicated_alb put_waf_logging_configuration ◌>>=◌
  put_alb_waf_logging_configuration id = do
    i ← load id
    d ← find_dedicated_alb i
    put_waf_logging_configuration d.dedicated_waf_web_acl_arn
        settings.alb_waf_cloudwatch_log_group_arn

  unfoldable pub put_cdn_waf_logging_configuration : String → Act W (Unit {0})
  unfolding load put_waf_logging_configuration ◌>>=◌
  put_cdn_waf_logging_configuration id = do
    i ← load id
    put_waf_logging_configuration i.dedicated_waf_web_acl_arn
        settings.cdn_waf_cloudwatch_log_group_arn

  -- One round of the loop of `_delete_web_acl_with_retries`.
  unfoldable pub deleted_yet : String → String → Scope → Act W Bool
  unfolding tried call pure raise has_code ◌>>=◌
  deleted_yet name id scope = do
    answer ← tried (do
      token ← call (waf.get_web_acl name id scope)
      call (waf.delete_web_acl name id scope token))
    elim answer [
      | ok u ↦ pure true
      | err e ↦
          if has_code "WAFOptimisticLockException" e
          then pure false
          else if has_code "WAFNonexistentItemException" e
          then pure true
          else raise e
    ]

  unfoldable pub delete_web_acl_with_retries : String → String → Scope → Act W (Unit {0})
  unfolding poll deleted_yet pure raise ◌>>=◌
  delete_web_acl_with_retries name id scope = do
    deleted ← poll 10 (deleted_yet name id scope)
    if deleted then pure tt else raise (runtime_error (plain "Failed to delete WAFv2 web ACL"))

  unfoldable pub delete_web_acl : String → Act W (Unit {0})
  unfolding load delete_web_acl_with_retries save pure raise ◌>>=◌
  delete_web_acl id = do
    i ← load id
    if not (is_whole (acl_of i))
        then pure tt
        else if not (is_cdn_dedicated_waf_instance i.instance_type)
        then raise (runtime_error (plain "unrecognized instance type"))
        else (do
          delete_web_acl_with_retries (text_in i.dedicated_waf_web_acl_name)
              (text_in i.dedicated_waf_web_acl_id) cloudfront
          save (with_acl (record { arn = none; id = none; name = none }) i))
