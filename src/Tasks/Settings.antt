-- ===== src/Tasks/Settings.antt =====
-- The values of broker/config.py that the tasks use. The sleeps between the calls are left out.
use external_domain_broker.Prelude.{ℕ, String, List}

pub record Settings : Type 0 where
  pub aws_poll_max_attempts : ℕ
  pub cdn_log_bucket : String
  pub dns_root_domain : String
  pub aws_resource_prefix : String
  pub alb_listener_arns : List String
  pub max_certs_per_alb : ℕ
  pub alb_iam_server_certificate_prefix : String
  pub cloudfront_iam_server_certificate_prefix : String
  pub waf_rate_limit_rule_group_arn : String
  pub alb_waf_cloudwatch_log_group_arn : String
  pub cdn_waf_cloudwatch_log_group_arn : String
