-- ===== src/Pipelines/Moves.antt =====
-- The task lists of broker/pipelines/migration.py, broker/pipelines/plan_updates.py
use external_domain_broker.Prelude.{List, [], ◌∷◌}
use external_domain_broker.Pipelines.Calls.{
  Call, add_certificate_to_alb, add_logging_to_bucket, answer_challenges, associate_alb_web_acl,
  associate_health_check, call, change_to_cdn_dedicated_waf_instance_type, create_alb_web_acl,
  create_alias_records, create_cdn_web_acl, create_ddos_detected_alarm, create_distribution,
  create_health_check_alarms, create_new_health_checks, create_notification_topic,
  create_txt_records, create_user, delete_previous_alb_server_certificate,
  delete_previous_server_certificate, deprovision, generate_private_key, initiate_challenges,
  provision, put_alb_waf_logging_configuration, put_cdn_waf_logging_configuration,
  remove_alb_certificate_during_update_to_cdn_dedicated_waf, remove_certificate_from_previous_alb,
  remove_certificate_from_previous_alb_during_update_to_dedicated, remove_old_dns_records,
  remove_s3_bucket_from_cdn_broker_instance, retrieve_certificate, select_alb, select_dedicated_alb,
  store_alb_certificate, subscribe_notification_topic, update_certificate, update_complete,
  update_distribution, upload_cloudfront_server_certificate, upload_server_certificate,
  wait_for_changes, wait_for_distribution,
}

unfoldable pub migration_deprovision_calls : List Call
migration_deprovision_calls = call deprovision ∷ []

unfoldable pub cdn_broker_migration_calls : List Call
cdn_broker_migration_calls =
    call remove_s3_bucket_from_cdn_broker_instance
    ∷ call add_logging_to_bucket
    ∷ call create_user
    ∷ call generate_private_key
    ∷ call initiate_challenges
    ∷ call create_alias_records
    ∷ call wait_for_changes
    ∷ call create_txt_records
    ∷ call wait_for_changes
    ∷ call answer_challenges
    ∷ call retrieve_certificate
    ∷ call upload_server_certificate
    ∷ call update_certificate
    ∷ call delete_previous_server_certificate
    ∷ call provision
    ∷ []

unfoldable pub domain_broker_migration_calls : List Call
domain_broker_migration_calls =
    call create_user
    ∷ call generate_private_key
    ∷ call initiate_challenges
    ∷ call create_alias_records
    ∷ call wait_for_changes
    ∷ call create_txt_records
    ∷ call wait_for_changes
    ∷ call answer_challenges
    ∷ call retrieve_certificate
    ∷ call upload_server_certificate
    ∷ call select_alb
    ∷ call add_certificate_to_alb
    ∷ call create_alias_records
    ∷ call wait_for_changes
    ∷ call remove_certificate_from_previous_alb
    ∷ call delete_previous_server_certificate
    ∷ call provision
    ∷ []

unfoldable pub alb_to_dedicated_alb_update_calls : List Call
alb_to_dedicated_alb_update_calls =
    call select_dedicated_alb
    ∷ call add_certificate_to_alb
    ∷ call create_alb_web_acl
    ∷ call put_alb_waf_logging_configuration
    ∷ call associate_alb_web_acl
    ∷ call create_alias_records
    ∷ call wait_for_changes
    ∷ call remove_certificate_from_previous_alb_during_update_to_dedicated
    ∷ call provision
    ∷ []

unfoldable pub dedicated_alb_to_cdn_dedicated_waf_update_calls : List Call
dedicated_alb_to_cdn_dedicated_waf_update_calls =
    call store_alb_certificate
    ∷ call generate_private_key
    ∷ call initiate_challenges
    ∷ call create_txt_records
    ∷ call wait_for_changes
    ∷ call remove_old_dns_records
    ∷ call answer_challenges
    ∷ call retrieve_certificate
    ∷ call upload_cloudfront_server_certificate
    ∷ call create_cdn_web_acl
    ∷ call put_cdn_waf_logging_configuration
    ∷ call create_distribution
    ∷ call wait_for_distribution
    ∷ call create_alias_records
    ∷ call wait_for_changes
    ∷ call create_notification_topic
    ∷ call subscribe_notification_topic
    ∷ call create_new_health_checks
    ∷ call associate_health_check
    ∷ call create_health_check_alarms
    ∷ call create_ddos_detected_alarm
    ∷ call remove_alb_certificate_during_update_to_cdn_dedicated_waf
    ∷ call delete_previous_alb_server_certificate
    ∷ call change_to_cdn_dedicated_waf_instance_type
    ∷ call update_complete
    ∷ []

unfoldable pub cdn_to_cdn_dedicated_waf_update_calls : List Call
cdn_to_cdn_dedicated_waf_update_calls =
    call generate_private_key
    ∷ call initiate_challenges
    ∷ call create_txt_records
    ∷ call wait_for_changes
    ∷ call answer_challenges
    ∷ call retrieve_certificate
    ∷ call upload_server_certificate
    ∷ call create_cdn_web_acl
    ∷ call update_distribution
    ∷ call wait_for_distribution
    ∷ call create_alias_records
    ∷ call wait_for_changes
    ∷ call delete_previous_server_certificate
    ∷ call create_notification_topic
    ∷ call subscribe_notification_topic
    ∷ call create_new_health_checks
    ∷ call associate_health_check
    ∷ call create_health_check_alarms
    ∷ call create_ddos_detected_alarm
    ∷ call update_complete
    ∷ []
