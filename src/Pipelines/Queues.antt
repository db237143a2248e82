-- ===== src/Pipelines/Queues.antt =====
-- The queue functions of broker/pipelines.
use external_domain_broker.Prelude.{
  ℕ, String, Bool, true, false, ◌||◌, not, Option, none, some, List, Result, ok, runtime_error,
  plain, ◌>>◌, guard,
}
use external_domain_broker.Pipelines.Calls.{
  Call, Job, Pipeline, alb_provision, alb_deprovision, alb_update, alb_renewal, cdn_provision,
  cdn_deprovision, cdn_update, cdn_renewal, cdn_dedicated_waf_provision,
  cdn_dedicated_waf_deprovision, cdn_dedicated_waf_update, dedicated_alb_provision,
  dedicated_alb_renewal, dedicated_alb_update, migration_deprovision, cdn_broker_migration,
  domain_broker_migration, alb_to_dedicated_alb_update, dedicated_alb_to_cdn_dedicated_waf_update,
  cdn_to_cdn_dedicated_waf_update,
}
use external_domain_broker.Pipelines.Alb.{
  alb_provision_calls, alb_deprovision_calls, alb_update_calls, alb_renewal_calls,
  dedicated_alb_provision_calls, dedicated_alb_renewal_calls, dedicated_alb_update_calls,
}
use external_domain_broker.Pipelines.Cdn.{
  cdn_provision_calls, cdn_deprovision_calls, cdn_update_calls, cdn_renewal_calls,
  cdn_dedicated_waf_provision_calls, cdn_dedicated_waf_deprovision_calls,
  cdn_dedicated_waf_update_calls,
}
use external_domain_broker.Pipelines.Moves.{
  migration_deprovision_calls, cdn_broker_migration_calls, domain_broker_migration_calls,
  alb_to_dedicated_alb_update_calls, dedicated_alb_to_cdn_dedicated_waf_update_calls,
  cdn_to_cdn_dedicated_waf_update_calls,
}

unfoldable pub calls : Pipeline → List Call
unfolding alb_provision_calls alb_deprovision_calls alb_update_calls alb_renewal_calls
    cdn_provision_calls cdn_deprovision_calls cdn_update_calls cdn_renewal_calls
    cdn_dedicated_waf_provision_calls cdn_dedicated_waf_deprovision_calls
    cdn_dedicated_waf_update_calls dedicated_alb_provision_calls dedicated_alb_renewal_calls
    dedicated_alb_update_calls migration_deprovision_calls cdn_broker_migration_calls
    domain_broker_migration_calls alb_to_dedicated_alb_update_calls
    dedicated_alb_to_cdn_dedicated_waf_update_calls cdn_to_cdn_dedicated_waf_update_calls
calls alb_provision = alb_provision_calls
calls alb_deprovision = alb_deprovision_calls
calls alb_update = alb_update_calls
calls alb_renewal = alb_renewal_calls
calls cdn_provision = cdn_provision_calls
calls cdn_deprovision = cdn_deprovision_calls
calls cdn_update = cdn_update_calls
calls cdn_renewal = cdn_renewal_calls
calls cdn_dedicated_waf_provision = cdn_dedicated_waf_provision_calls
calls cdn_dedicated_waf_deprovision = cdn_dedicated_waf_deprovision_calls
calls cdn_dedicated_waf_update = cdn_dedicated_waf_update_calls
calls dedicated_alb_provision = dedicated_alb_provision_calls
calls dedicated_alb_renewal = dedicated_alb_renewal_calls
calls dedicated_alb_update = dedicated_alb_update_calls
calls migration_deprovision = migration_deprovision_calls
calls cdn_broker_migration = cdn_broker_migration_calls
calls domain_broker_migration = domain_broker_migration_calls
calls alb_to_dedicated_alb_update = alb_to_dedicated_alb_update_calls
calls dedicated_alb_to_cdn_dedicated_waf_update = dedicated_alb_to_cdn_dedicated_waf_update_calls
calls cdn_to_cdn_dedicated_waf_update = cdn_to_cdn_dedicated_waf_update_calls

-- The pipelines whose function raises if it is given no correlation id.
abbrev pub checks_correlation : Pipeline → Bool
checks_correlation alb_provision = true
checks_correlation alb_deprovision = true
checks_correlation cdn_provision = true
checks_correlation cdn_deprovision = true
checks_correlation cdn_dedicated_waf_provision = true
checks_correlation cdn_dedicated_waf_deprovision = true
checks_correlation dedicated_alb_provision = true
checks_correlation migration_deprovision = true
checks_correlation alb_to_dedicated_alb_update = true
checks_correlation dedicated_alb_to_cdn_dedicated_waf_update = true
checks_correlation cdn_to_cdn_dedicated_waf_update = true
checks_correlation _ = false

-- Renewals carry a correlation id of their own.
abbrev pub correlation : Pipeline → Option String → Option String
correlation alb_renewal given = some "Renewal"
correlation cdn_renewal given = some "Renewal"
correlation dedicated_alb_renewal given = some "Renewal"
correlation _ given = given

abbrev pub is_given : Option String → Bool
is_given none = false
is_given (some id) = true

-- A call of a queue function with an operation's id and the correlation id of the request.
unfoldable pub queue : Pipeline → ℕ → Option String → Result Job
queue pipeline operation_id given = do
  guard (not (checks_correlation pipeline) || is_given given)
      (runtime_error (plain "correlation_id must be set"))
  ok (record {
    pipeline = pipeline;
    operation_id = operation_id;
    correlation_id = correlation pipeline given;
  })
