-- ===== src/Cdn/Migrate.antt =====
-- The migration parameters of broker/lib/cdn.py and broker/lib/alb.py
use external_domain_broker.Prelude.{
  ℕ, String, some, List, [], ◌∷◌, Result, ok, ◌>>=◌, ◌>>◌, guard, client_error, value,
}
use external_domain_broker.Json.{str, Params, has, item, truthy}
use external_domain_broker.Env.{Env}
use external_domain_broker.Models.{ServiceInstance, Certificate, new_certificate}
use external_domain_broker.Cdn.Provision.{protocol_policy}

-- The loop over `required`.
unfoldable pub require_params : List String → Params → Result (Unit {0})
unfolding has
require_params [] params = ok tt
require_params (param ∷ rest) params = do
  guard (has param params) (client_error (value param))
  require_params rest params

cdn_required : List String
cdn_required =
    "origin" ∷ "path" ∷ "forwarded_cookies" ∷ "forward_cookie_policy" ∷ "forwarded_headers"
    ∷ "insecure_origin" ∷ "error_responses" ∷ "cloudfront_distribution_id"
    ∷ "cloudfront_distribution_arn" ∷ "iam_server_certificate_name" ∷ "iam_server_certificate_id"
    ∷ "iam_server_certificate_arn" ∷ "domain_internal" ∷ []

alb_required : List String
alb_required =
    "iam_server_certificate_name" ∷ "iam_server_certificate_id" ∷ "iam_server_certificate_arn"
    ∷ "domain_internal" ∷ "alb_arn" ∷ "alb_listener_arn" ∷ "hosted_zone_id" ∷ []

unfoldable pub validate_migration_to_cdn_params : Params → Result (Unit {0})
unfolding cdn_required require_params
validate_migration_to_cdn_params = require_params cdn_required

unfoldable pub validate_migration_to_alb_params : Params → Result (Unit {0})
unfolding alb_required require_params
validate_migration_to_alb_params = require_params alb_required

-- The certificate row of a migrated instance, at the key that the database gives it.
unfoldable pub migrated_certificate : Params → String → Result (ℕ → Certificate)
unfolding item
migrated_certificate params instance_id = do
  id ← item "iam_server_certificate_id" params
  arn ← item "iam_server_certificate_arn" params
  name ← item "iam_server_certificate_name" params
  ok (λ (key : ℕ). record (new_certificate key instance_id) {
    iam_server_certificate_id = id;
    iam_server_certificate_arn = arn;
    iam_server_certificate_name = name;
  })

unfoldable pub update_cdn_params_for_migration :
    Env → Params → ServiceInstance → Result ServiceInstance
unfolding item
update_cdn_params_for_migration env params i = do
  hostname ← item "origin" params
  path ← item "path" params
  cookies ← item "forwarded_cookies" params
  policy ← item "forward_cookie_policy" params
  insecure ← item "insecure_origin" params
  headers ← item "forwarded_headers" params
  responses ← item "error_responses" params
  distribution_id ← item "cloudfront_distribution_id" params
  distribution_arn ← item "cloudfront_distribution_arn" params
  internal ← item "domain_internal" params
  ok (record i {
    cloudfront_origin_hostname = hostname;
    cloudfront_origin_path = path;
    forwarded_cookies = cookies;
    forward_cookie_policy = policy;
    route53_alias_hosted_zone = str env.cloudfront_hosted_zone_id;
    origin_protocol_policy = some (protocol_policy (truthy insecure));
    forwarded_headers = headers;
    error_responses = responses;
    cloudfront_distribution_id = distribution_id;
    cloudfront_distribution_arn = distribution_arn;
    domain_internal = internal;
  })

unfoldable pub update_alb_params_for_migration : Params → ServiceInstance → Result ServiceInstance
unfolding item
update_alb_params_for_migration params i = do
  internal ← item "domain_internal" params
  zone ← item "hosted_zone_id" params
  listener ← item "alb_listener_arn" params
  arn ← item "alb_arn" params
  ok (record i {
    domain_internal = internal;
    route53_alias_hosted_zone = zone;
    alb_listener_arn = listener;
    alb_arn = arn;
  })
