-- ===== src/Api/Catalog.antt =====
-- The plans, and `catalog` of broker/api.py
use external_domain_broker.Prelude.{ℕ, String, Bool, Option, none, some, List, [], ◌∷◌}
use external_domain_broker.Json.{Params}
use external_domain_broker.Tags.{Plan, Details}

abbrev pub alb_plan_id : String
alb_plan_id = "6f60835c-8964-4f1f-a19a-579fb27ce694"

abbrev pub cdn_plan_id : String
cdn_plan_id = "1cc78b0c-c296-48f5-9182-0b38404f79ef"

abbrev pub migration_plan_id : String
migration_plan_id = "739e78F5-a919-46ef-9193-1293cc086c17"

abbrev pub dedicated_alb_plan_id : String
dedicated_alb_plan_id = "fcde69c6-077b-4edd-8d12-7b95bbc2595f"

abbrev pub cdn_dedicated_waf_plan_id : String
cdn_dedicated_waf_plan_id = "129c8332-02ce-460a-bd6d-bde10110c654"

-- The name of the service, and the id and the name of each plan.
abbrev pub offering : String
offering = "external-domain"

abbrev pub plans : List Plan
plans =
    record { id = alb_plan_id; name = "domain" }
    ∷ record { id = cdn_plan_id; name = "domain-with-cdn" }
    ∷ record { id = migration_plan_id; name = "migration-not-for-direct-use" }
    ∷ record { id = dedicated_alb_plan_id; name = "domain-with-org-lb" }
    ∷ record { id = cdn_dedicated_waf_plan_id; name = "domain-with-cdn-dedicated-waf" }
    ∷ []

-- A request: the parameters, if any, and the correlation id of the logging framework.
pub record Request : Type 0 where
  pub instance_id : String
  pub details : Details
  pub parameters : Option Params
  -- `details.context["organization_guid"]`, if the context has it
  pub context_organization : Option String
  pub async_allowed : Bool
  pub correlation_id : Option String

-- `details.parameters or {}`
abbrev pub params_of : Request → Params
params_of r = elim r.parameters [ none ↦ [] | some p ↦ p ]

-- What a request answers: done at once, or by the operation with this id.
pub data Reply : Type 0 where
  done : Reply
  is_async : ℕ → Reply
