-- ===== src/Cdn/Settings.antt =====
-- The parsers of broker/lib/cdn.py, and the settings that provisioning and updates share.
use external_domain_broker.Prelude.{
  String, string_eq, ◌==◌, Option, none, some, List, Result, ok, err, ◌>>=◌, ◌>>◌, guard,
  bad_request, plain, not, ◌||◌, if◌then◌else◌,
}
use external_domain_broker.Json.{
  Json, null, str, Params, get, truthy, iterate, texts, strings, is_str, appended,
}
use external_domain_broker.Env.{Env}
use external_domain_broker.Policies.{is_policy_allowed, cache_policy_id, origin_request_policy_id}
use external_domain_broker.Models.{ServiceInstance, InstanceType, is_cdn_dedicated_waf_instance}
use external_domain_broker.Utils.{normalize_header_list}

unfoldable pub parse_alarm_notification_email : InstanceType → Params → Json
unfolding get
parse_alarm_notification_email kind params =
    if is_cdn_dedicated_waf_instance kind then get "alarm_notification_email" null params else null

allowed_id : List String → (String → Result String) → Json → Result (Option String)
unfolding is_policy_allowed
allowed_id allowed find (str policy) = do
  guard (is_policy_allowed policy allowed) (bad_request (plain "not an allowed value"))
  id ← find policy
  ok (some id)
allowed_id allowed find _ = err (bad_request (plain "not an allowed value"))

unfoldable pub parse_cache_policy : Env → Params → Result (Option String)
unfolding allowed_id get cache_policy_id
parse_cache_policy env params =
    let policy = get "cache_policy" null params in
    if truthy policy
    then allowed_id env.allowed_cache_policies (cache_policy_id env) policy
    else ok none

unfoldable pub parse_origin_request_policy : Env → Params → Result (Option String)
unfolding allowed_id get origin_request_policy_id
parse_origin_request_policy env params =
    let policy = get "origin_request_policy" null params in
    if truthy policy
    then allowed_id env.allowed_origin_request_policies (origin_request_policy_id env) policy
    else ok none

-- `if policy_id: instance.… = policy_id`
abbrev pub chosen : Option String → Option String → Option String
chosen none old = old
chosen (some id) old = if id == "" then old else some id

-- The last lines of both functions: the two policies.
unfoldable pub set_policies : Env → Params → ServiceInstance → Result ServiceInstance
unfolding parse_cache_policy parse_origin_request_policy
set_policies env params instance_ = do
  cache ← parse_cache_policy env params
  origin_request ← parse_origin_request_policy env params
  ok (record instance_ {
    cache_policy_id = chosen cache instance_.cache_policy_id;
    origin_request_policy_id = chosen origin_request instance_.origin_request_policy_id;
  })

-- `HOST` is forwarded to the default origin, and the headers are normalised.
unfoldable pub finish_headers : Env → Json → Json → Result Json
unfolding normalize_header_list texts
finish_headers env hostname headers = do
  with_host ←
      if is_str env.default_cloudfront_origin hostname
      then appended headers (str "HOST")
      else ok headers
  listed ← iterate with_host
  names ← texts listed
  ok (strings (normalize_header_list env names))

-- The e-mail address for alarms: `kept` is the one that makes the parameter optional.
unfoldable pub set_email : Params → Json → ServiceInstance → Result ServiceInstance
unfolding parse_alarm_notification_email
set_email params kept instance_ =
    let email = parse_alarm_notification_email instance_.instance_type params in
    if truthy email then ok (record instance_ { alarm_notification_email = email }) else do
      guard (not (is_cdn_dedicated_waf_instance instance_.instance_type) || truthy kept)
          (bad_request (plain "'alarm_notification_email' is required"))
      ok instance_
