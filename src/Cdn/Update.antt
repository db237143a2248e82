-- ===== src/Cdn/Update.antt =====
-- `update_cdn_instance` of broker/lib/cdn.py: a parameter that is not given changes nothing.
use external_domain_broker.Prelude.{
  some, Result, ok, ◌>>=◌, ◌>>◌, guard, bad_request, plain, not, ◌&&◌, if◌then◌else◌,
}
use external_domain_broker.Json.{null, str, Params, get, has, truthy, strings, is_str, copied}
use external_domain_broker.Env.{Env}
use external_domain_broker.Validators.{validate_hostname, validate_error_responses}
use external_domain_broker.Models.{ServiceInstance}
use external_domain_broker.Utils.{parse_cookie_options, parse_header_options, policy_value}
use external_domain_broker.Cdn.Settings.{finish_headers, set_email, set_policies}
use external_domain_broker.Cdn.Provision.{protocol_policy}

module _ (env : Env) (params : Params) where
  unfoldable pub update_origin : ServiceInstance → Result ServiceInstance
  unfolding has get validate_hostname
  update_origin i =
      let origin = get "origin" null params in
      let given = (do
        validate_hostname origin
        ok (record i { cloudfront_origin_hostname = origin })) in
      let default =
        ok (record i { cloudfront_origin_hostname = str env.default_cloudfront_origin }) in
      if has "origin" params then (if truthy origin then given else default) else ok i

  unfoldable pub update_path : ServiceInstance → ServiceInstance
  unfolding has get
  update_path i =
      let path = get "path" null params in
      if has "path" params
      then record i { cloudfront_origin_path = if truthy path then path else str "" }
      else i

  unfoldable pub update_cookies : ServiceInstance → Result ServiceInstance
  unfolding has parse_cookie_options
  update_cookies i =
      if has "forward_cookies" params
      then (do
        (policy, cookies) ← parse_cookie_options params
        ok (record i {
          forward_cookie_policy = str (policy_value policy);
          forwarded_cookies = strings cookies;
        }))
      else ok i

  unfoldable pub update_headers : ServiceInstance → Result ServiceInstance
  unfolding has parse_header_options finish_headers
  update_headers i = do
    headers ←
        if has "forward_headers" params
        then (do parsed ← parse_header_options params; ok (strings parsed))
        else copied i.forwarded_headers
    finished ← finish_headers env i.cloudfront_origin_hostname headers
    ok (record i { forwarded_headers = finished })

  unfoldable pub update_protocol : ServiceInstance → Result ServiceInstance
  unfolding has get
  update_protocol i =
      let insecure = truthy (get "insecure_origin" null params) in
      if has "insecure_origin" params
      then (do
        guard (not (insecure && is_str env.default_cloudfront_origin i.cloudfront_origin_hostname))
            (bad_request (plain "Cannot use insecure_origin with default origin"))
        ok (record i { origin_protocol_policy = some (protocol_policy insecure) }))
      else ok i

  unfoldable pub update_error_responses : ServiceInstance → Result ServiceInstance
  unfolding has get validate_error_responses
  update_error_responses i =
      let responses = get "error_responses" null params in
      if has "error_responses" params
      then (do validate_error_responses responses; ok (record i { error_responses = responses }))
      else ok i

  unfoldable pub update_cdn_instance : ServiceInstance → Result ServiceInstance
  unfolding update_origin update_path update_cookies update_headers update_protocol
      update_error_responses set_email set_policies
  update_cdn_instance i = do
    with_origin ← update_origin i
    with_cookies ← update_cookies (update_path with_origin)
    with_headers ← update_headers with_cookies
    with_protocol ← update_protocol with_headers
    with_responses ← update_error_responses with_protocol
    with_email ← set_email params with_responses.alarm_notification_email with_responses
    set_policies env params with_email
