-- ===== src/Pipelines/Calls.antt =====
-- The tasks that the pipelines are made of (the functions of broker/tasks), and how a call passes
-- the id of the operation.
use external_domain_broker.Prelude.{ℕ, String, Option}

pub data Task : Type 0 where
  -- broker/tasks/letsencrypt.py
  create_user generate_private_key initiate_challenges answer_challenges : Task
  retrieve_certificate : Task
  -- broker/tasks/route53.py
  create_txt_records wait_for_changes create_alias_records remove_alias_records : Task
  remove_txt_records remove_old_dns_records create_new_health_checks delete_health_checks : Task
  delete_unused_health_checks : Task
  -- broker/tasks/iam.py
  upload_server_certificate delete_server_certificate delete_previous_server_certificate : Task
  upload_cloudfront_server_certificate delete_previous_alb_server_certificate : Task
  -- broker/tasks/alb.py
  select_alb add_certificate_to_alb remove_certificate_from_alb : Task
  remove_certificate_from_previous_alb select_dedicated_alb : Task
  remove_certificate_from_previous_alb_during_update_to_dedicated store_alb_certificate : Task
  remove_alb_certificate_during_update_to_cdn_dedicated_waf : Task
  -- broker/tasks/update_operations.py
  provision cancel_pending_provisioning deprovision update_complete : Task
  -- broker/tasks/cloudfront.py
  create_distribution wait_for_distribution disable_distribution : Task
  wait_for_distribution_disabled delete_distribution update_distribution : Task
  update_certificate remove_s3_bucket_from_cdn_broker_instance add_logging_to_bucket : Task
  -- broker/tasks/waf.py
  create_cdn_web_acl put_cdn_waf_logging_configuration delete_web_acl create_alb_web_acl : Task
  put_alb_waf_logging_configuration associate_alb_web_acl : Task
  -- broker/tasks/sns.py
  create_notification_topic subscribe_notification_topic unsubscribe_notification_topic : Task
  delete_notification_topic : Task
  -- broker/tasks/shield.py
  associate_health_check disassociate_health_check update_associated_health_check : Task
  -- broker/tasks/cloudwatch.py
  create_health_check_alarms create_ddos_detected_alarm delete_ddos_detected_alarm : Task
  delete_health_check_alarms : Task
  -- broker/tasks/update_instances.py
  change_to_cdn_dedicated_waf_instance_type : Task

-- The id is the first positional argument, or the keyword argument `operation_id`.
pub data Passing : Type 0 where
  positional keyword : Passing

pub record Call : Type 0 where
  pub task : Task
  pub passing : Passing

abbrev pub call : Task → Call
call t = record { task = t; passing = positional }

abbrev pub call_by_name : Task → Call
call_by_name t = record { task = t; passing = keyword }

-- The functions `queue_all_…_tasks_for_operation`.
pub data Pipeline : Type 0 where
  alb_provision : Pipeline
  alb_deprovision : Pipeline
  alb_update : Pipeline
  alb_renewal : Pipeline
  cdn_provision : Pipeline
  cdn_deprovision : Pipeline
  cdn_update : Pipeline
  cdn_renewal : Pipeline
  cdn_dedicated_waf_provision : Pipeline
  cdn_dedicated_waf_deprovision : Pipeline
  cdn_dedicated_waf_update : Pipeline
  dedicated_alb_provision : Pipeline
  dedicated_alb_renewal : Pipeline
  dedicated_alb_update : Pipeline
  migration_deprovision : Pipeline
  cdn_broker_migration : Pipeline
  domain_broker_migration : Pipeline
  alb_to_dedicated_alb_update : Pipeline
  dedicated_alb_to_cdn_dedicated_waf_update : Pipeline
  cdn_to_cdn_dedicated_waf_update : Pipeline

-- What a queue function hands to huey.
pub record Job : Type 0 where
  pub pipeline : Pipeline
  pub operation_id : ℕ
  pub correlation_id : Option String
