-- ===== src/Cdn/Provision.antt =====
-- `provision_cdn_instance` and `_provision_cdn_instance` of broker/lib/cdn.py
use external_domain_broker.Prelude.{
  String, Bool, false, some, List, Result, ◌>>=◌, ◌>>◌, guard, bad_request, plain, not, ◌&&◌,
  if◌then◌else◌,
}
use external_domain_broker.Json.{null, bool, str, obj, end, Params, get, truthy, strings, is_null}
use external_domain_broker.Env.{Env}
use external_domain_broker.Validators.{validate_hostname, validate_error_responses}
use external_domain_broker.Models.{ServiceInstance, InstanceType, new_instance}
use external_domain_broker.Utils.{parse_cookie_options, parse_header_options, policy_value}
use external_domain_broker.Cdn.Settings.{finish_headers, set_email, set_policies}

-- `ProtocolPolicy`
abbrev pub protocol_policy : Bool → String
protocol_policy insecure = if insecure then "http-only" else "https-only"

unfoldable pub set_cdn_params : Env → Params → ServiceInstance → Result ServiceInstance
unfolding get parse_cookie_options parse_header_options finish_headers set_email set_policies
    validate_hostname validate_error_responses
set_cdn_params env params instance_ = do
  let hostname = get "origin" (str env.default_cloudfront_origin) params
  validate_hostname hostname
  (policy, cookies) ← parse_cookie_options params
  parsed ← parse_header_options params
  headers ← finish_headers env hostname (strings parsed)
  let responses = get "error_responses" (obj end) params
  validate_error_responses responses
  let insecure = truthy (get "insecure_origin" (bool false) params)
  guard (not (insecure && is_null (get "origin" null params)))
      (bad_request (plain "'insecure_origin' cannot be set when using the default origin."))
  with_email ← set_email params null (record instance_ {
    route53_alias_hosted_zone = str env.cloudfront_hosted_zone_id;
    cloudfront_origin_hostname = hostname;
    cloudfront_origin_path = get "path" (str "") params;
    forward_cookie_policy = str (policy_value policy);
    forwarded_cookies = strings cookies;
    forwarded_headers = headers;
    error_responses = responses;
    origin_protocol_policy = some (protocol_policy insecure);
  })
  set_policies env params with_email

unfoldable pub provision_cdn_instance :
    Env → String → List String → Params → InstanceType → Result ServiceInstance
unfolding set_cdn_params
provision_cdn_instance env instance_id domain_names params kind =
    set_cdn_params env params (new_instance instance_id domain_names kind)
