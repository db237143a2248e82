-- ===== src/Worker/Steps.antt =====
-- The decorators of the tasks in broker/tasks: the description of each step and its retries.
use external_domain_broker.Prelude.{ℕ, String, Option, none, some}
use external_domain_broker.Pipelines.{
  Task, create_user, generate_private_key, initiate_challenges, create_txt_records,
  wait_for_changes, answer_challenges, retrieve_certificate, upload_server_certificate, select_alb,
  add_certificate_to_alb, create_alias_records, remove_alias_records, remove_txt_records,
  remove_certificate_from_alb, delete_server_certificate, remove_old_dns_records,
  remove_certificate_from_previous_alb, delete_previous_server_certificate, create_distribution,
  wait_for_distribution, disable_distribution, wait_for_distribution_disabled, delete_distribution,
  update_distribution, update_certificate, create_cdn_web_acl, put_cdn_waf_logging_configuration,
  create_notification_topic, subscribe_notification_topic, create_new_health_checks,
  associate_health_check, create_health_check_alarms, create_ddos_detected_alarm,
  delete_ddos_detected_alarm, delete_health_check_alarms, disassociate_health_check,
  delete_health_checks, unsubscribe_notification_topic, delete_notification_topic, delete_web_acl,
  update_associated_health_check, delete_unused_health_checks, select_dedicated_alb,
  create_alb_web_acl, put_alb_waf_logging_configuration, associate_alb_web_acl,
  remove_s3_bucket_from_cdn_broker_instance, add_logging_to_bucket,
  remove_certificate_from_previous_alb_during_update_to_dedicated, store_alb_certificate,
  upload_cloudfront_server_certificate, remove_alb_certificate_during_update_to_cdn_dedicated_waf,
  delete_previous_alb_server_certificate, change_to_cdn_dedicated_waf_instance_type,
}

-- The description given to `pipeline_operation`; the tasks of update_operations have none.
abbrev pub description : Task → Option String
description create_user = some "Registering user for Lets Encrypt"
description generate_private_key = some "Creating credentials for Lets Encrypt"
description initiate_challenges = some "Initiating Lets Encrypt challenges"
description create_txt_records = some "Updating DNS TXT records"
description wait_for_changes = some "Waiting for DNS changes"
description answer_challenges = some "Answering Lets Encrypt challenges"
description retrieve_certificate = some "Retrieving SSL certificate from Lets Encrypt"
description upload_server_certificate = some "Uploading SSL certificate to AWS"
description select_alb = some "Selecting load balancer"
description add_certificate_to_alb = some "Adding SSL certificate to load balancer"
description create_alias_records = some "Creating DNS ALIAS records"
description remove_alias_records = some "Removing DNS ALIAS records"
description remove_txt_records = some "Removing DNS TXT records"
description remove_certificate_from_alb = some "Removing SSL certificate from load balancer"
description delete_server_certificate = some "Removing SSL certificate from AWS"
description remove_old_dns_records = some "Removing old DNS records"
description remove_certificate_from_previous_alb =
    some "Removing SSL certificate from load balancer"
description delete_previous_server_certificate = some "Removing SSL certificate from AWS"
description create_distribution = some "Creating CloudFront distribution"
description wait_for_distribution = some "Waiting for CloudFront distribution"
description disable_distribution = some "Disabling CloudFront distribution"
description wait_for_distribution_disabled = some "Waiting for CloudFront distribution to disable"
description delete_distribution = some "Deleting CloudFront distribution"
description update_distribution = some "Updating CloudFront distribution"
description update_certificate = some "Updating CloudFront distribution certificate"
description create_cdn_web_acl = some "Creating custom WAFv2 web ACL"
description put_cdn_waf_logging_configuration = some "Updating WAFv2 web ACL logging configuration"
description create_notification_topic = some "Creating SNS notification topic"
description subscribe_notification_topic = some "Subscribing to SNS notification topic"
description create_new_health_checks = some "Creating new health checks"
description associate_health_check = some "Associating health check with Shield"
description create_health_check_alarms = some "Creating Cloudwatch alarms for Route53 health checks"
description create_ddos_detected_alarm = some "Creating DDoS detection alarm"
description delete_ddos_detected_alarm = some "Deleting DDoS detection alarm"
description delete_health_check_alarms = some "Deleting Cloudwatch alarms for Route53 health checks"
description disassociate_health_check = some "Disassociating health check with Shield"
description delete_health_checks = some "Deleting health checks"
description unsubscribe_notification_topic = some "Unsubscribing from SNS notification topic"
description delete_notification_topic = some "Deleting SNS notification topic"
description delete_web_acl = some "Deleting custom WAFv2 web ACL"
description update_associated_health_check = some "Updating associated health check with Shield"
description delete_unused_health_checks = some "Deleting unused health checks"
description select_dedicated_alb = some "Selecting load balancer"
description create_alb_web_acl = some "Creating WAFv2 web ACL for ALB"
description put_alb_waf_logging_configuration = some "Updating WAFv2 web ACL logging configuration"
description associate_alb_web_acl = some "Associating custom WAFv2 web ACL to ALB"
description remove_s3_bucket_from_cdn_broker_instance = some "Removing s3 bucket binding"
description add_logging_to_bucket = some "Adding logging to Cloudfront distribution"
description remove_certificate_from_previous_alb_during_update_to_dedicated =
    some "Removing certificate from previous load balancer"
description store_alb_certificate = some "Storing ALB certificate information"
description upload_cloudfront_server_certificate = some "Uploading SSL certificate to AWS"
description remove_alb_certificate_during_update_to_cdn_dedicated_waf =
    some "Removing SSL certificate from previous load balancer"
description delete_previous_alb_server_certificate = some "Removing SSL certificate from AWS"
description change_to_cdn_dedicated_waf_instance_type =
    some "Changing instance type to CDNDedicatedWAFServiceInstance"
description _ = none

-- `retriable_task` allows 24 retries, `nonretriable_task` none.
abbrev pub retries_of : Task → ℕ
retries_of generate_private_key = 0
retries_of _ = 24
