-- ===== src/Pipelines/Cdn.antt =====
-- The task lists of broker/pipelines/cdn.py, broker/pipelines/cdn_dedicated_waf.py
use external_domain_broker.Prelude.{List, [], ◌∷◌}
use external_domain_broker.Pipelines.Calls.{
  Call, answer_challenges, associate_health_check, call, call_by_name, cancel_pending_provisioning,
  create_alias_records, create_cdn_web_acl, create_ddos_detected_alarm, create_distribution,
  create_health_check_alarms, create_new_health_checks, create_notification_topic,
  create_txt_records, create_user, delete_ddos_detected_alarm, delete_distribution,
  delete_health_check_alarms, delete_health_checks, delete_notification_topic,
  delete_previous_server_certificate, delete_server_certificate, delete_unused_health_checks,
  delete_web_acl, deprovision, disable_distribution, disassociate_health_check,
  generate_private_key, initiate_challenges, provision, put_cdn_waf_logging_configuration,
  remove_alias_records, remove_old_dns_records, remove_txt_records, retrieve_certificate,
  subscribe_notification_topic, unsubscribe_notification_topic, update_associated_health_check,
  update_certificate, update_complete, update_distribution, upload_server_certificate,
  wait_for_changes, wait_for_distribution, wait_for_distribution_disabled,
}

unfoldable pub cdn_provision_calls : List Call
cdn_provision_calls =
    call create_user
    ∷ call generate_private_key
    ∷ call initiate_challenges
    ∷ call create_txt_records
    ∷ call wait_for_changes
    ∷ call answer_challenges
    ∷ call retrieve_certificate
    ∷ call upload_server_certificate
    ∷ call create_distribution
    ∷ call wait_for_distribution
    ∷ call create_alias_records
    ∷ call wait_for_changes
    ∷ call provision
    ∷ []

unfoldable pub cdn_deprovision_calls : List Call
cdn_deprovision_calls =
    call cancel_pending_provisioning
    ∷ call remove_alias_records
    ∷ call remove_txt_records
    ∷ call disable_distribution
    ∷ call wait_for_distribution_disabled
    ∷ call_by_name delete_distribution
    ∷ call delete_server_certificate
    ∷ call deprovision
    ∷ []

unfoldable pub cdn_update_calls : List Call
cdn_update_calls =
    call generate_private_key
    ∷ call initiate_challenges
    ∷ call create_txt_records
    ∷ call wait_for_changes
    ∷ call remove_old_dns_records
    ∷ call answer_challenges
    ∷ call retrieve_certificate
    ∷ call upload_server_certificate
    ∷ call update_distribution
    ∷ call wait_for_distribution
    ∷ call create_alias_records
    ∷ call wait_for_changes
    ∷ call delete_previous_server_certificate
    ∷ call update_complete
    ∷ []

unfoldable pub cdn_renewal_calls : List Call
cdn_renewal_calls =
    call generate_private_key
    ∷ call initiate_challenges
    ∷ call create_txt_records
    ∷ call wait_for_changes
    ∷ call answer_challenges
    ∷ call retrieve_certificate
    ∷ call upload_server_certificate
    ∷ call update_certificate
    ∷ call delete_previous_server_certificate
    ∷ call provision
    ∷ []

unfoldable pub cdn_dedicated_waf_provision_calls : List Call
cdn_dedicated_waf_provision_calls =
    call create_user
    ∷ call generate_private_key
    ∷ call initiate_challenges
    ∷ call create_txt_records
    ∷ call wait_for_changes
    ∷ call answer_challenges
    ∷ call retrieve_certificate
    ∷ call upload_server_certificate
    ∷ call create_cdn_web_acl
    ∷ call put_cdn_waf_logging_configuration
    ∷ call create_distribution
    ∷ call wait_for_distribution
    ∷ call create_alias_records
    ∷ call wait_for_changes
    ∷ call create_notification_topic
    ∷ call subscribe_notification_topic
    ∷ call create_new_health_checks
    ∷ call associate_health_check
    ∷ call create_health_check_alarms
    ∷ call create_ddos_detected_alarm
    ∷ call provision
    ∷ []

unfoldable pub cdn_dedicated_waf_deprovision_calls : List Call
cdn_dedicated_waf_deprovision_calls =
    call cancel_pending_provisioning
    ∷ call remove_alias_records
    ∷ call remove_txt_records
    ∷ call delete_ddos_detected_alarm
    ∷ call delete_health_check_alarms
    ∷ call disassociate_health_check
    ∷ call delete_health_checks
    ∷ call unsubscribe_notification_topic
    ∷ call delete_notification_topic
    ∷ call disable_distribution
    ∷ call wait_for_distribution_disabled
    ∷ call_by_name delete_distribution
    ∷ call_by_name delete_web_acl
    ∷ call delete_server_certificate
    ∷ call deprovision
    ∷ []

unfoldable pub cdn_dedicated_waf_update_calls : List Call
cdn_dedicated_waf_update_calls =
    call generate_private_key
    ∷ call initiate_challenges
    ∷ call create_txt_records
    ∷ call wait_for_changes
    ∷ call remove_old_dns_records
    ∷ call answer_challenges
    ∷ call retrieve_certificate
    ∷ call upload_server_certificate
    ∷ call create_cdn_web_acl
    ∷ call put_cdn_waf_logging_configuration
    ∷ call update_distribution
    ∷ call wait_for_distribution
    ∷ call create_alias_records
    ∷ call wait_for_changes
    ∷ call delete_previous_server_certificate
    ∷ call create_notification_topic
    ∷ call unsubscribe_notification_topic
    ∷ call subscribe_notification_topic
    ∷ call create_new_health_checks
    ∷ call update_associated_health_check
    ∷ call delete_unused_health_checks
    ∷ call delete_health_check_alarms
    ∷ call create_health_check_alarms
    ∷ call create_ddos_detected_alarm
    ∷ call update_complete
    ∷ []
