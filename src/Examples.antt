-- ===== src/Examples.antt =====
-- The theorems at concrete data: one domain, one instance, and the requests for it.
use external_domain_broker.Prelude.{
  String, string_eq, ◌==◌, Bool, true, false, none, some, List, [], ◌∷◌, ◌≡◌, ◌≢◌, ◌↔◌, refl, ok,
  ◌>>=◌, err, out_of_fuel, elem, lookup, map, eq_iff, arith, if◌then◌else◌,
}
use external_domain_broker.Json.{strings}
use external_domain_broker.Env.{Env, Answer, target, nxdomain}
use external_domain_broker.Validators.{validate_headers, answered, get_cname, error_for_domain}
use external_domain_broker.Validators.Tokens.{are_plain_tokens, validate_headers_iff}
use external_domain_broker.Validators.Chains.{PointsInto, IsPointed, error_for_domain_iff}
use external_domain_broker.Text.{upper, lower, strip}
use external_domain_broker.Text.Order.{IsAscending}
use external_domain_broker.Utils.{normalize_header_list}
use external_domain_broker.Utils.Headers.{normalize_header_list_lem}
use external_domain_broker.Policies.{collect, is_policy_allowed}
use external_domain_broker.Policies.Listing.{lookup-collect, last_id}
use external_domain_broker.Tags.{generate_tags, create_resource_tags, TagSource}
use external_domain_broker.Tags.Keys.{create_resource_tags-generate_tags, present, rows_of}
use external_domain_broker.Pipelines.{Pipeline, Call, Task, positional, keyword, calls}
use external_domain_broker.Pipelines.Protocol.{is_ordered, is_ordered-calls}
use external_domain_broker.Models.{
  Db, Session, ServiceInstance, new_instance, cdn, find, Operation, OperationState, in_progress,
  Action,
}
use external_domain_broker.Domains.Holders.{IsExclusive, holds}
use external_domain_broker.Api.{Request, cdn_plan_id, alb_plan_id}
use external_domain_broker.Api.Sequence.{
  ApiCall, provisioning, deprovisioning, serve_all, serve_all-IsExclusive,
}
use external_domain_broker.Worker.{
  Run, returned, raised, start, attempts, deprovision_task, load_operation,
}
use external_domain_broker.Api.Queued.{waits}
use external_domain_broker.Api.Committed.{Backed, serve_all-Backed}
use external_domain_broker.Worker.Endings.{
  IsOpen, IsComplete, run-IsOpen, run_to_completion, all_return,
}
use external_domain_broker.Worker.Failures.{
  GivenUp, all_raise, failed_for_good, all_positional, all_positional-calls,
}
use external_domain_broker.Worker.Deactivated.{deprovision_task-holds}

abbrev challenge : String
challenge = "_acme-challenge.example.gov"

abbrev broker_name : String
broker_name = "_acme-challenge.example.gov.domains.cloud.test"

abbrev records : String → Answer
records name = if name == challenge then target broker_name else nxdomain

abbrev one_env : Env
one_env = record {
  resolve = records;
  fuel = 5;
  dns_root_domain = "domains.cloud.test";
  ignore_duplicate_domains = false;
  default_cloudfront_origin = "cloud.test";
  cloudfront_hosted_zone_id = "Z2FDTNDATAQYW2";
  flask_env = "test";
  allowed_cache_policies = "Managed-CachingDisabled" ∷ [];
  allowed_origin_request_policies = [];
  list_cache_policies = λ marker. ok (record { page_items = []; next_marker = none });
  list_origin_request_policies = λ marker. ok (record { page_items = []; next_marker = none });
  space_name = λ guid. ok "space";
  organization_name = λ guid. ok "organization";
  upper = upper;
  lower = lower;
  strip = strip;
}

answer-elem :
    (known : Bool) (b : String)
    → answered (if known then target broker_name else nxdomain) ≡ ok b
    → (b == "") ≡ false
    → elem b (broker_name ∷ []) ≡ true
unfolding elem
answer-elem true b h k = ground (arith, eq_iff broker_name b)
answer-elem false b h k = ground (arith, eq_iff b "")

one_env-PointsInto : PointsInto one_env (broker_name ∷ [])
unfolding get_cname
one_env-PointsInto a b h k = answer-elem (a == challenge) b h k

error_for_domain_iff_example :
    (error_for_domain one_env "example.gov" ≢ err out_of_fuel)
    × ((error_for_domain one_env "example.gov" ≡ ok none) ↔ IsPointed one_env "example.gov")
error_for_domain_iff_example =
    error_for_domain_iff one_env (broker_name ∷ []) one_env-PointsInto (omega arith) "example.gov"

normalize_header_list_example :
    IsAscending (normalize_header_list one_env ("Host" ∷ "accept" ∷ "HOST" ∷ []))
    × (elem "HOST" (normalize_header_list one_env ("Host" ∷ "accept" ∷ "HOST" ∷ []))
        ≡ elem "HOST" (map upper ("Host" ∷ "accept" ∷ "HOST" ∷ [])))
normalize_header_list_example =
    normalize_header_list_lem one_env ("Host" ∷ "accept" ∷ "HOST" ∷ []) "HOST"

lookup-collect_example :
    lookup "A" (collect ("A" ∷ []) (some ("A", "1") ∷ some ("B", "2") ∷ some ("A", "3") ∷ []) [])
    ≡ (if is_policy_allowed "A" ("A" ∷ [])
        then last_id "A" (some ("A", "1") ∷ some ("B", "2") ∷ some ("A", "3") ∷ []) (lookup "A" [])
        else lookup "A" [])
lookup-collect_example =
    lookup-collect ("A" ∷ []) (some ("A", "1") ∷ some ("B", "2") ∷ some ("A", "3") ∷ []) [] "A"

abbrev source : TagSource
source = record {
  instance_guid = "instance-1";
  offering_name = "external-domain";
  plan_name = "domain";
  organization_guid = "organization-1";
  space_guid = "space-1";
}

create_resource_tags_example :
    (generate_tags one_env "test" source >>= create_resource_tags)
    ≡ ok (present (rows_of "test" source "space" "organization"))
create_resource_tags_example =
    create_resource_tags-generate_tags one_env "test" source "space" "organization" (λ h. refl)
      (λ h. refl)

is_ordered-calls_example : is_ordered (calls Pipeline.cdn_provision) ≡ true
is_ordered-calls_example = is_ordered-calls Pipeline.cdn_provision

all_positional-calls_example : all_positional (calls Pipeline.cdn_deprovision) ≡ false
all_positional-calls_example = all_positional-calls Pipeline.cdn_deprovision

abbrev one_operation : Operation
one_operation = record {
  id = 1;
  service_instance_id = "instance-1";
  state = in_progress;
  action = Action.provision;
  canceled_at = none;
  step_description = "Queuing tasks";
  updated_at = none;
}

run-IsOpen_example :
    IsOpen
      (attempts 7 (returned ∷ raised ∷ returned ∷ []) (start Pipeline.alb_provision one_operation))
run-IsOpen_example =
    run-IsOpen Pipeline.alb_provision one_operation 7 (returned ∷ raised ∷ returned ∷ []) refl

run_to_completion_example : IsComplete (
    attempts 7
      (all_return (calls Pipeline.cdn_dedicated_waf_update))
      (start Pipeline.cdn_dedicated_waf_update one_operation))
unfolding calls
run_to_completion_example =
    run_to_completion Pipeline.cdn_dedicated_waf_update one_operation 7 refl refl

abbrev last_call : Call
last_call = record { task = Task.delete_distribution; passing = keyword }

-- A run with two calls left and one retry.
abbrev late_run : Run
late_run = record {
  operation = one_operation;
  calls = last_call ∷ record { task = Task.deprovision; passing = positional } ∷ [];
  retries = 1;
  alerts = 0;
}

failed_for_good_example : GivenUp last_call one_operation 0 (attempts 7 (all_raise 2) late_run)
failed_for_good_example =
    failed_for_good 7 last_call (record { task = Task.deprovision; passing = positional } ∷ [])
      late_run refl refl

abbrev canceled_run : Run
canceled_run = record late_run {
  operation = record one_operation { canceled_at = some 3 };
  calls = record { task = Task.deprovision; passing = positional } ∷ [];
}

abbrev one_instance : ServiceInstance
one_instance = new_instance "instance-1" ("example.gov" ∷ []) cdn

abbrev one_db : Db
one_db = record {
  instances = one_instance ∷ [];
  operations = one_operation ∷ [];
  certificates = [];
  next_operation_id = 2;
  next_certificate_id = 1;
}

abbrev one_db_after : Db
one_db_after = record one_db {
  instances = record one_instance { deactivated_at = some 7 } ∷ [];
  operations =
      record one_operation { state = OperationState.succeeded; step_description = "Complete!" }
      ∷ [];
}

deprovision_task_returns : deprovision_task 7 1 one_db ≡ ok one_db_after
unfolding deprovision_task
deprovision_task_returns = refl

operation_loaded : load_operation 1 one_db.operations ≡ some one_operation
unfolding load_operation
operation_loaded = refl

deprovision_task-holds_example :
    ((d : String) → holds "instance-1" d one_db_after.instances ≡ false)
    × ((a d : String) → holds a d one_db_after.instances ≡ true → holds a d one_db.instances ≡ true)
    × (IsExclusive one_db.instances → IsExclusive one_db_after.instances)
deprovision_task-holds_example =
    deprovision_task-holds 7 1 one_db one_db_after one_operation operation_loaded
      deprovision_task_returns

one_db-IsExclusive : IsExclusive one_db.instances
unfolding holds find
one_db-IsExclusive = record {
  one_holder = λ d a b h k. ground (arith, eq_iff "instance-1" a, eq_iff "instance-1" b);
}

abbrev one_session : Session
one_session = record { committed = one_db_after; working = one_db_after; queued = [] }

abbrev one_request : String → String → List String → Request
one_request id plan domains = record {
  instance_id = id;
  details = record { plan_id = plan; organization_guid = "organization-1"; space_guid = "space-1" };
  parameters = some (("domains", strings domains) ∷ []);
  context_organization = some "organization-1";
  async_allowed = true;
  correlation_id = some "c-1";
}

abbrev requests : List ApiCall
requests =
    provisioning (one_request "instance-2" alb_plan_id ("example.gov" ∷ []))
    ∷ provisioning (one_request "instance-3" cdn_plan_id ("example.gov" ∷ []))
    ∷ deprovisioning (one_request "instance-2" alb_plan_id [])
    ∷ []

after_db-IsExclusive : IsExclusive one_session.committed.instances
after_db-IsExclusive = deprovision_task-holds_example.2 one_db-IsExclusive

serve_all-IsExclusive_example :
    IsExclusive (serve_all one_env requests one_session).committed.instances
serve_all-IsExclusive_example =
    serve_all-IsExclusive one_env requests one_session refl after_db-IsExclusive

one_session-Backed : Backed one_session
unfolding waits
one_session-Backed = record { backed = λ n h. cc }

serve_all-Backed_example : Backed (serve_all one_env requests one_session)
serve_all-Backed_example = serve_all-Backed one_env requests one_session one_session-Backed

validate_headers_iff_example :
    (validate_headers ("Host" ∷ "X-Id" ∷ []) ≡ ok tt)
    ↔ (are_plain_tokens ("Host" ∷ "X-Id" ∷ []) ≡ true)
validate_headers_iff_example = validate_headers_iff ("Host" ∷ "X-Id" ∷ [])
