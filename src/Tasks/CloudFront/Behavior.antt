-- ===== src/Tasks/CloudFront/Behavior.antt =====
-- The parts of a distribution's configuration that broker/tasks/cloudfront.py computes.
use external_domain_broker.Prelude.{
  String, string_eq, Bool, true, false, none, some, Option, List, [], ◌∷◌, length, is_empty, Result,
  ok, if◌then◌else◌, ◌>>=◌,
}
use external_domain_broker.Text.{int_of}
use external_domain_broker.Json.{
  Json, null, bool, num, str, Params, strings, arr, items_of, truthy, is_str, get,
}
use external_domain_broker.Json.Dicts.{dict, put, popped, as_mapping, len}
use external_domain_broker.Models.{ServiceInstance}

abbrev pub entry : String → Json → String × Json
entry k v = (k, v)

unfoldable pub get_cookie_policy : ServiceInstance → Result Json
get_cookie_policy i = elim (is_str "whitelist" i.forward_cookie_policy) [
  | true ↦ do
    n ← len i.forwarded_cookies
    ok (
        dict (
          entry "Forward" (str "whitelist")
          ∷ entry "WhitelistedNames"
              (dict (entry "Quantity" (num n) ∷ entry "Items" i.forwarded_cookies ∷ []))
          ∷ []))
  | false ↦ ok (dict (entry "Forward" i.forward_cookie_policy ∷ []))
]

unfoldable pub get_header_policy : ServiceInstance → Result Json
get_header_policy i = do
  n ← len i.forwarded_headers
  ok (dict (entry "Quantity" (num n) ∷ entry "Items" i.forwarded_headers ∷ []))

unfoldable pub get_aliases : ServiceInstance → Json
get_aliases i =
    dict
      (entry "Quantity" (num (length i.domain_names)) ∷ entry "Items" (strings i.domain_names) ∷ [])

-- The loop of `get_custom_error_responses`.
unfoldable pub error_items : Params → Result (List Json)
unfolding int_of
error_items [] = ok []
error_items ((code, page) ∷ rest) = do
  number ← int_of code
  more ← error_items rest
  ok (
      dict (
        entry "ErrorCode" (num number)
        ∷ entry "ResponsePagePath" page
        ∷ entry "ResponseCode" (str code)
        ∷ entry "ErrorCachingMinTTL" (num 300)
        ∷ [])
      ∷ more)

abbrev pub counted : List Json → Json
counted items =
    if is_empty items
    then dict (entry "Quantity" (num 0) ∷ [])
    else dict (entry "Quantity" (num (length items)) ∷ entry "Items" (arr (items_of items)) ∷ [])

unfoldable pub get_custom_error_responses : ServiceInstance → Result Json
unfolding error_items
get_custom_error_responses i = do
  responses ← as_mapping i.error_responses
  items ← error_items responses
  ok (counted items)

unfoldable pub default_cache_behavior : Params
default_cache_behavior =
    entry "TargetOriginId" (str "default-origin")
    ∷ entry "ViewerProtocolPolicy" (str "redirect-to-https")
    ∷ entry "AllowedMethods" (
        dict (
          entry "Quantity" (num 7)
          ∷ entry "Items"
              (strings ("GET" ∷ "HEAD" ∷ "POST" ∷ "PUT" ∷ "PATCH" ∷ "OPTIONS" ∷ "DELETE" ∷ []))
          ∷ entry "CachedMethods"
              (dict (entry "Quantity" (num 2) ∷ entry "Items" (strings ("GET" ∷ "HEAD" ∷ [])) ∷ []))
          ∷ []))
    ∷ entry "DefaultTTL" (num 86400)
    ∷ entry "MinTTL" (num 0)
    ∷ entry "MaxTTL" (num 31536000)
    ∷ []

-- `column or d.get(k, None)`
unfoldable pub preferred : Option String → String → Params → Json
unfolding get
preferred none k d = get k null d
preferred (some s) k d = let other = get k null d in if truthy (str s) then str s else other

unfoldable pub with_policy : Json → Params → Params
unfolding put popped
with_policy policy d = popped "MaxTTL" (
    popped "MinTTL" (popped "DefaultTTL" (popped "ForwardedValues" (put "CachePolicyId" policy d))))

abbrev pub forwarded_values : Json → Json → Json
forwarded_values cookies headers = dict (
    entry "QueryString" (bool true)
    ∷ entry "Cookies" cookies
    ∷ entry "Headers" headers
    ∷ entry "QueryStringCacheKeys" (dict (entry "Quantity" (num 0) ∷ []))
    ∷ [])

unfoldable pub with_values : Json → Params → Params
unfolding put popped
with_values values d = popped "CachePolicyId" (put "ForwardedValues" values d)

-- `if origin_request_policy_id: …`
unfoldable pub with_origin_policy : Json → Params → Params
unfolding put
with_origin_policy policy d = if truthy policy then put "OriginRequestPolicyId" policy d else d

-- The two ways to cache, with what `get_cookie_policy` and `get_header_policy` answer.
unfoldable pub finished : Bool → Result Json → Result Json → Json → Json → Params → Result Params
unfolding with_policy with_values with_origin_policy
finished true cookies headers policy origin_policy behavior =
    ok (with_origin_policy origin_policy (with_policy policy behavior))
finished false cookies headers policy origin_policy behavior = do
  c ← cookies
  v ← headers
  ok (with_origin_policy origin_policy (with_values (forwarded_values c v) behavior))

unfoldable pub update_default_cache_behavior : ServiceInstance → Params → Result Params
unfolding get_cookie_policy get_header_policy preferred finished
update_default_cache_behavior i behavior =
    let policy = preferred i.cache_policy_id "CachePolicyId" behavior in
    let origin_policy = preferred i.origin_request_policy_id "OriginRequestPolicyId" behavior in
    finished (truthy policy) (get_cookie_policy i) (get_header_policy i) policy origin_policy
      behavior
