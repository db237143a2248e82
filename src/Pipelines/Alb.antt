-- ===== src/Pipelines/Alb.antt =====
-- The task lists of broker/pipelines/alb.py, broker/pipelines/dedicated_alb.py
use external_domain_broker.Prelude.{List, [], ◌∷◌}
use external_domain_broker.Pipelines.Calls.{
  Call, add_certificate_to_alb, answer_challenges, associate_alb_web_acl, call,
  cancel_pending_provisioning, create_alb_web_acl, create_alias_records, create_txt_records,
  create_user, delete_previous_server_certificate, delete_server_certificate, deprovision,
  generate_private_key, initiate_challenges, provision, put_alb_waf_logging_configuration,
  remove_alias_records, remove_certificate_from_alb, remove_certificate_from_previous_alb,
  remove_old_dns_records, remove_txt_records, retrieve_certificate, select_alb,
  select_dedicated_alb, upload_server_certificate, wait_for_changes,
}

unfoldable pub alb_provision_calls : List Call
alb_provision_calls =
    call create_user
    ∷ call generate_private_key
    ∷ call initiate_challenges
    ∷ call create_txt_records
    ∷ call wait_for_changes
    ∷ call answer_challenges
    ∷ call retrieve_certificate
    ∷ call upload_server_certificate
    ∷ call select_alb
    ∷ call add_certificate_to_alb
    ∷ call create_alias_records
    ∷ call wait_for_changes
    ∷ call provision
    ∷ []

unfoldable pub alb_deprovision_calls : List Call
alb_deprovision_calls =
    call cancel_pending_provisioning
    ∷ call remove_alias_records
    ∷ call remove_txt_records
    ∷ call remove_certificate_from_alb
    ∷ call delete_server_certificate
    ∷ call deprovision
    ∷ []

unfoldable pub alb_update_calls : List Call
alb_update_calls =
    call generate_private_key
    ∷ call initiate_challenges
    ∷ call create_txt_records
    ∷ call wait_for_changes
    ∷ call remove_old_dns_records
    ∷ call answer_challenges
    ∷ call retrieve_certificate
    ∷ call upload_server_certificate
    ∷ call select_alb
    ∷ call add_certificate_to_alb
    ∷ call create_alias_records
    ∷ call wait_for_changes
    ∷ call remove_certificate_from_previous_alb
    ∷ call delete_previous_server_certificate
    ∷ call provision
    ∷ []

unfoldable pub alb_renewal_calls : List Call
alb_renewal_calls =
    call generate_private_key
    ∷ call initiate_challenges
    ∷ call create_txt_records
    ∷ call wait_for_changes
    ∷ call answer_challenges
    ∷ call retrieve_certificate
    ∷ call upload_server_certificate
    ∷ call select_alb
    ∷ call add_certificate_to_alb
    ∷ call create_alias_records
    ∷ call wait_for_changes
    ∷ call remove_certificate_from_previous_alb
    ∷ call delete_previous_server_certificate
    ∷ call provision
    ∷ []

unfoldable pub dedicated_alb_provision_calls : List Call
dedicated_alb_provision_calls =
    call create_user
    ∷ call generate_private_key
    ∷ call initiate_challenges
    ∷ call create_txt_records
    ∷ call wait_for_changes
    ∷ call answer_challenges
    ∷ call retrieve_certificate
    ∷ call upload_server_certificate
    ∷ call select_dedicated_alb
    ∷ call add_certificate_to_alb
    ∷ call create_alb_web_acl
    ∷ call put_alb_waf_logging_configuration
    ∷ call associate_alb_web_acl
    ∷ call create_alias_records
    ∷ call wait_for_changes
    ∷ call provision
    ∷ []

unfoldable pub dedicated_alb_renewal_calls : List Call
dedicated_alb_renewal_calls =
    call generate_private_key
    ∷ call initiate_challenges
    ∷ call create_txt_records
    ∷ call wait_for_changes
    ∷ call answer_challenges
    ∷ call retrieve_certificate
    ∷ call upload_server_certificate
    ∷ call select_dedicated_alb
    ∷ call add_certificate_to_alb
    ∷ call create_alias_records
    ∷ call wait_for_changes
    ∷ call remove_certificate_from_previous_alb
    ∷ call delete_previous_server_certificate
    ∷ call provision
    ∷ []

unfoldable pub dedicated_alb_update_calls : List Call
dedicated_alb_update_calls =
    call generate_private_key
    ∷ call initiate_challenges
    ∷ call create_txt_records
    ∷ call wait_for_changes
    ∷ call remove_old_dns_records
    ∷ call answer_challenges
    ∷ call retrieve_certificate
    ∷ call upload_server_certificate
    ∷ call select_dedicated_alb
    ∷ call add_certificate_to_alb
    ∷ call create_alb_web_acl
    ∷ call put_alb_waf_logging_configuration
    ∷ call associate_alb_web_acl
    ∷ call create_alias_records
    ∷ call wait_for_changes
    ∷ call remove_certificate_from_previous_alb
    ∷ call delete_previous_server_certificate
    ∷ call provision
    ∷ []
