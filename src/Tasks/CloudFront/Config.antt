-- ===== src/Tasks/CloudFront/Config.antt =====
-- The configurations of a distribution that broker/tasks/cloudfront.py sends.
use Prim.Native.String
use external_domain_broker.Prelude.{
  String, string_eq, ◌==◌, Bool, true, false, ◌&&◌, Option, none, some, List, [], ◌∷◌, Result, ok,
  err, type_error, if◌then◌else◌, length, ◌>>=◌,
}
use external_domain_broker.Json.{
  Json, null, bool, num, str, arr, nil, items_of, truthy, is_str, Params, get,
}
use external_domain_broker.Json.Dicts.{
  dict, as_list, as_mapping, subscript, assigned, changed_at, changed_first,
}
use external_domain_broker.Models.{ServiceInstance, Certificate, Tag, is_cdn_dedicated_waf_instance}
use external_domain_broker.Tags.{tag_key_exists, add_tag}
use external_domain_broker.Tasks.Work.{is_set}
use external_domain_broker.Tasks.HealthChecks.{listed}
use external_domain_broker.Tasks.CloudFront.Behavior.{
  entry, get_aliases, get_custom_error_responses, default_cache_behavior,
  update_default_cache_behavior,
}

abbrev pub column : Option String → Json
column none = null
column (some s) = str s

abbrev comment : Json
comment = str "external domain service https://cloud-gov/external-domain-broker"

abbrev acl_tag : Tag
acl_tag = record { key = "has_dedicated_acl"; value = "true" }

unfoldable pub add_dedicated_web_acl_tag : ServiceInstance → Result ServiceInstance
unfolding tag_key_exists add_tag
add_dedicated_web_acl_tag i =
    let tags = listed i.tags in
    if tag_key_exists tags acl_tag.key
    then ok (record i { tags = some tags })
    else (do more ← add_tag tags acl_tag; ok (record i { tags = some more }))

-- The instance and the configuration, with the web ACL where there is one.
unfoldable pub with_web_acl : ServiceInstance → Json → Result (ServiceInstance × Json)
unfolding add_dedicated_web_acl_tag assigned
with_web_acl i config =
    if is_cdn_dedicated_waf_instance i.instance_type && is_set i.dedicated_waf_web_acl_arn
    then (do
      changed ← assigned "WebACLId" (column i.dedicated_waf_web_acl_arn) config
      tagged ← add_dedicated_web_acl_tag i
      ok (tagged, changed))
    else ok (i, config)

abbrev logging : String → ServiceInstance → Json
logging bucket i = dict (
    entry "Enabled" (bool true)
    ∷ entry "IncludeCookies" (bool false)
    ∷ entry "Bucket" (str bucket)
    ∷ entry "Prefix" (str (String.◌++◌ i.id "/"))
    ∷ [])

abbrev origin : ServiceInstance → Json
origin i = dict (
    entry "Id" (str "default-origin")
    ∷ entry "DomainName" i.cloudfront_origin_hostname
    ∷ entry "OriginPath" i.cloudfront_origin_path
    ∷ entry "CustomOriginConfig" (
        dict (
          entry "HTTPPort" (num 80)
          ∷ entry "HTTPSPort" (num 443)
          ∷ entry "OriginProtocolPolicy" (column i.origin_protocol_policy)
          ∷ entry "OriginSslProtocols" (
              dict (
                entry "Quantity" (num 1)
                ∷ entry "Items" (arr (items_of (str "TLSv1.2" ∷ [])))
                ∷ []))
          ∷ entry "OriginReadTimeout" (num 30)
          ∷ entry "OriginKeepaliveTimeout" (num 5)
          ∷ []))
    ∷ [])

abbrev no_items : Json
no_items = dict (entry "Quantity" (num 0) ∷ [])

abbrev viewer_certificate : Certificate → Json
viewer_certificate certificate = dict (
    entry "CloudFrontDefaultCertificate" (bool false)
    ∷ entry "IAMCertificateId" certificate.iam_server_certificate_id
    ∷ entry "SSLSupportMethod" (str "sni-only")
    ∷ entry "MinimumProtocolVersion" (str "TLSv1.2_2018")
    ∷ [])

-- The configuration of a new distribution, without a web ACL.
unfoldable pub plain_config : String → ServiceInstance → Certificate → Json → Params → Json
unfolding get_aliases
plain_config bucket i certificate responses behavior = dict (
    entry "CallerReference" (str i.id)
    ∷ entry "Aliases" (get_aliases i)
    ∷ entry "DefaultRootObject" (str "")
    ∷ entry "Origins"
        (dict (entry "Quantity" (num 1) ∷ entry "Items" (arr (items_of (origin i ∷ []))) ∷ []))
    ∷ entry "OriginGroups" no_items
    ∷ entry "DefaultCacheBehavior" (dict behavior)
    ∷ entry "CacheBehaviors" no_items
    ∷ entry "CustomErrorResponses" responses
    ∷ entry "Comment" comment
    ∷ entry "Logging" (logging bucket i)
    ∷ entry "PriceClass" (str "PriceClass_100")
    ∷ entry "Enabled" (bool true)
    ∷ entry "ViewerCertificate" (viewer_certificate certificate)
    ∷ entry "IsIPV6Enabled" (bool true)
    ∷ [])

-- The configuration of a new distribution, and the instance with its tags.
unfoldable pub new_config : String → ServiceInstance → Certificate → Result (ServiceInstance × Json)
unfolding get_custom_error_responses update_default_cache_behavior default_cache_behavior
    plain_config with_web_acl
new_config bucket i certificate = do
  responses ← get_custom_error_responses i
  behavior ← update_default_cache_behavior i default_cache_behavior
  with_web_acl i (plain_config bucket i certificate responses behavior)

unfoldable pub with_certificate : Json → Json → Result Json
unfolding changed_at assigned
with_certificate iam_id = changed_at "ViewerCertificate" (assigned "IAMCertificateId" iam_id)

-- `config["Origins"]["Items"][0]`, changed.
abbrev with_origin : (Json → Result Json) → Json → Result Json
unfolding changed_at
with_origin change = changed_at "Origins" (changed_at "Items" (changed_first change))

-- The configuration that `update_distribution` makes of the old one.
unfoldable pub updated_config :
    ServiceInstance → Certificate → Json → Result (ServiceInstance × Json)
unfolding get_custom_error_responses update_default_cache_behavior get_aliases with_web_acl
    with_certificate subscript assigned changed_at
updated_config i certificate config = do
  c1 ← with_certificate certificate.iam_server_certificate_id config
  c2 ← with_origin (assigned "DomainName" i.cloudfront_origin_hostname) c1
  c3 ← with_origin (assigned "OriginPath" i.cloudfront_origin_path) c2
  c4 ←
      with_origin
        (changed_at "CustomOriginConfig"
          (assigned "OriginProtocolPolicy" (column i.origin_protocol_policy)))
        c3
  old ← subscript "DefaultCacheBehavior" c4
  copied ← as_mapping old
  behavior ← update_default_cache_behavior i copied
  c5 ← assigned "DefaultCacheBehavior" (dict behavior) c4
  c6 ← assigned "Aliases" (get_aliases i) c5
  responses ← get_custom_error_responses i
  c7 ← assigned "CustomErrorResponses" responses c6
  with_web_acl i c7

-- `not status["Distribution"]["DistributionConfig"]["Enabled"] and …`
unfoldable pub is_disabled : Json → Result Bool
unfolding subscript
is_disabled status = do
  distribution ← subscript "Distribution" status
  config ← subscript "DistributionConfig" distribution
  enabled ← subscript "Enabled" config
  elim (truthy enabled) [
    | true ↦ ok false
    | false ↦ do state ← subscript "Status" distribution; ok (is_str "Deployed" state)
  ]

-- An id of an origin, which is a text.
abbrev text_at : String → Json → Result String
unfolding subscript
text_at k v = do u ← subscript k v; elim u [ str s ↦ ok s | _ ↦ err type_error ]

-- The target of the last behaviour for the ACME challenges.
unfoldable pub acme_origin : Option String → List Json → Result (Option String)
unfolding subscript
acme_origin found [] = ok found
acme_origin found (x ∷ xs) = do
  pattern_of ← subscript "PathPattern" x
  elim (is_str "/.well-known/acme-challenge/*" pattern_of) [
    | true ↦ do target ← text_at "TargetOriginId" x; acme_origin (some target) xs
    | false ↦ acme_origin found xs
  ]

-- `[item for item in xs if item[k] != id]`
unfoldable pub others : String → String → List Json → Result (List Json)
unfolding subscript
others k id [] = ok []
others k id (x ∷ xs) = do
  target ← text_at k x
  rest ← others k id xs
  ok (if target == id then rest else x ∷ rest)

-- `Items`, if there are any, and `Quantity`.
abbrev listing : List Json → Json
listing [] = dict (entry "Quantity" (num 0) ∷ [])
listing (x ∷ xs) =
    dict (entry "Items" (arr (items_of (x ∷ xs))) ∷ entry "Quantity" (num (length (x ∷ xs))) ∷ [])

-- The configuration without the origin, if there is a behaviour for the ACME challenges.
unfoldable pub without_acme_origin : Json → Result (Option Json)
unfolding acme_origin others subscript assigned get
without_acme_origin config = do
  behaviors ← subscript "CacheBehaviors" config
  behavior_dict ← as_mapping behaviors
  behavior_items ← as_list (get "Items" (arr nil) behavior_dict)
  found ← acme_origin none behavior_items
  elim found [
    | none ↦ ok none
    | some id ↦ do
      kept ← others "TargetOriginId" id behavior_items
      origins ← subscript "Origins" config
      origin_list ← subscript "Items" origins
      origin_items ← as_list origin_list
      kept_origins ← others "Id" id origin_items
      c1 ← assigned "Origins" (listing kept_origins) config
      c2 ← assigned "CacheBehaviors" (listing kept) c1
      c3 ← assigned "Comment" comment c2
      ok (some c3)
  ]

-- The configuration with logging, if it has none.
unfoldable pub with_logging : String → ServiceInstance → Json → Result (Option Json)
unfolding subscript assigned
with_logging bucket i config = do
  old ← subscript "Logging" config
  enabled ← subscript "Enabled" old
  elim (truthy enabled) [
    | true ↦ ok none
    | false ↦ do changed ← assigned "Logging" (logging bucket i) config; ok (some changed)
  ]
