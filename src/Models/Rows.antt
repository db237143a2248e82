-- ===== src/Models/Rows.antt =====
-- The tables of broker/models.py. Service instances of all types share one table, so one record
-- holds the columns of all of them; a column that stores a request's parameter unchanged is JSON.
use external_domain_broker.Prelude.{ℕ, String, Option, none, some, List, []}
use external_domain_broker.Json.{Json, null, str, arr, nil}

-- `ServiceInstanceTypes`
pub data InstanceType : Type 0 where
  alb cdn cdn_dedicated_waf dedicated_alb migration : InstanceType
  dedicated_alb_cdn_dedicated_waf_migration : InstanceType

pub record Tag : Type 0 where
  pub key : String
  pub value : String

pub record HealthCheck : Type 0 where
  pub domain_name : String
  pub health_check_id : String

pub record AssociatedCheck : Type 0 where
  pub domain_name : String
  pub health_check_id : String
  pub protection_id : String

pub record Alarm : Type 0 where
  pub alarm_name : String
  pub health_check_id : String

pub record ServiceInstance : Type 0 where
  pub id : String
  pub acme_user_id : Option ℕ
  pub domain_names : List String
  pub instance_type : InstanceType
  pub domain_internal : Json
  pub route53_alias_hosted_zone : Json
  pub route53_change_ids : List String
  pub deactivated_at : Option ℕ
  pub current_certificate_id : Option ℕ
  pub new_certificate_id : Option ℕ
  pub tags : Option (List Tag)
  -- `CDNServiceInstance`
  pub cloudfront_distribution_arn : Json
  pub cloudfront_distribution_id : Json
  pub cloudfront_origin_hostname : Json
  pub cloudfront_origin_path : Json
  pub forward_cookie_policy : Json
  pub forwarded_cookies : Json
  pub forwarded_headers : Json
  pub error_responses : Json
  pub origin_protocol_policy : Option String
  pub cache_policy_id : Option String
  pub origin_request_policy_id : Option String
  -- `CDNDedicatedWAFServiceInstance`
  pub dedicated_waf_web_acl_arn : Option String
  pub dedicated_waf_web_acl_id : Option String
  pub dedicated_waf_web_acl_name : Option String
  pub route53_health_checks : Option (List HealthCheck)
  pub shield_associated_health_check : Option AssociatedCheck
  pub cloudwatch_health_check_alarms : Option (List Alarm)
  pub alarm_notification_email : Json
  pub sns_notification_topic_arn : Option String
  pub ddos_detected_cloudwatch_alarm_name : Option String
  pub sns_notification_topic_subscription_arn : Option String
  -- `AbstractALBServiceInstance` and `DedicatedALBServiceInstance`
  pub alb_arn : Json
  pub alb_listener_arn : Json
  pub previous_alb_arn : Json
  pub previous_alb_listener_arn : Json
  pub org_id : Option String
  -- `MigrateDedicatedALBToCDNDedicatedWafServiceInstance`
  pub alb_certificate_id : Option ℕ

-- A row as the class's constructor makes it, with an id, domains and a type.
abbrev pub new_instance : String → List String → InstanceType → ServiceInstance
new_instance id domain_names instance_type = record {
  id = id;
  acme_user_id = none;
  domain_names = domain_names;
  instance_type = instance_type;
  domain_internal = null;
  route53_alias_hosted_zone = null;
  route53_change_ids = [];
  deactivated_at = none;
  current_certificate_id = none;
  new_certificate_id = none;
  tags = none;
  cloudfront_distribution_arn = null;
  cloudfront_distribution_id = null;
  cloudfront_origin_hostname = null;
  cloudfront_origin_path = null;
  forward_cookie_policy = str "all";
  forwarded_cookies = arr nil;
  forwarded_headers = arr nil;
  error_responses = arr nil;
  origin_protocol_policy = none;
  cache_policy_id = none;
  origin_request_policy_id = none;
  dedicated_waf_web_acl_arn = none;
  dedicated_waf_web_acl_id = none;
  dedicated_waf_web_acl_name = none;
  route53_health_checks = some [];
  shield_associated_health_check = none;
  cloudwatch_health_check_alarms = some [];
  alarm_notification_email = null;
  sns_notification_topic_arn = none;
  ddos_detected_cloudwatch_alarm_name = none;
  sns_notification_topic_subscription_arn = none;
  alb_arn = null;
  alb_listener_arn = null;
  previous_alb_arn = null;
  previous_alb_listener_arn = null;
  org_id = none;
  alb_certificate_id = none;
}

pub record Certificate : Type 0 where
  pub id : ℕ
  pub service_instance_id : String
  pub subject_alternative_names : List String
  pub leaf_pem : Option String
  pub expires_at : Option ℕ
  pub private_key_pem : Option String
  pub csr_pem : Option String
  pub fullchain_pem : Option String
  pub iam_server_certificate_id : Json
  pub iam_server_certificate_name : Json
  pub iam_server_certificate_arn : Json
  pub order_json : Option String

abbrev pub new_certificate : ℕ → String → Certificate
new_certificate id service_instance_id = record {
  id = id;
  service_instance_id = service_instance_id;
  subject_alternative_names = [];
  leaf_pem = none;
  expires_at = none;
  private_key_pem = none;
  csr_pem = none;
  fullchain_pem = none;
  iam_server_certificate_id = null;
  iam_server_certificate_name = null;
  iam_server_certificate_arn = null;
  order_json = none;
}

-- `OperationState` of openbrokerapi
pub data OperationState : Type 0 where
  in_progress succeeded failed : OperationState

-- `Operation.Actions`
pub data Action : Type 0 where
  provision deprovision renew update migrate_to_broker : Action

pub record Operation : Type 0 where
  pub id : ℕ
  pub service_instance_id : String
  pub state : OperationState
  pub action : Action
  pub canceled_at : Option ℕ
  pub step_description : String
  -- of the base class; `none` until the row is first changed
  pub updated_at : Option ℕ

-- The tables that the requests read and write. The counters are the sequences of the keys.
pub record Db : Type 0 where
  pub instances : List ServiceInstance
  pub operations : List Operation
  pub certificates : List Certificate
  pub next_operation_id : ℕ
  pub next_certificate_id : ℕ
