-- ===== src/Tasks/CloudFront/Exclusive.antt =====
-- What `update_default_cache_behavior` of broker/tasks/cloudfront.py makes of a behaviour.
use external_domain_broker.Prelude.{
  String, string_eq, ◌==◌, Bool, true, false, not, none, some, List, [], ◌∷◌, Result, ok, err,
  lookup, elem, ◌≡◌, refl, subst, arith, if◌then◌else◌,
}
use external_domain_broker.Json.{Json, Params, truthy, has}
use external_domain_broker.Json.Dicts.{lookup-put, lookup-popped, put, popped}
use external_domain_broker.Models.{ServiceInstance}
use external_domain_broker.Tasks.CloudFront.Behavior.{
  update_default_cache_behavior, preferred, with_policy, with_values, with_origin_policy,
  get_cookie_policy, get_header_policy, forwarded_values, finished,
}

-- The keys that the function may write or remove.
abbrev managed : List String
managed =
    "CachePolicyId" ∷ "ForwardedValues" ∷ "DefaultTTL" ∷ "MinTTL" ∷ "MaxTTL"
    ∷ "OriginRequestPolicyId" ∷ []

-- A behaviour caches either by a policy, without the fields that the policy sets, or by forwarded
-- values, and has the other keys of the old one.
pub record IsConsistent (old new : Params) : Type 0 where
  pub one_way : has "ForwardedValues" new ≡ not (has "CachePolicyId" new)
  pub no_ttl :
      has "CachePolicyId" new ≡ true
      → (has "DefaultTTL" new ≡ false) × (has "MinTTL" new ≡ false) × (has "MaxTTL" new ≡ false)
  pub others : (k : String) → elem k managed ≡ false → lookup k new ≡ lookup k old

lookup-with_policy :
    (k : String) (policy : Json) (d : Params)
    → lookup k (with_policy policy d) ≡ (
        if elem k ("ForwardedValues" ∷ "DefaultTTL" ∷ "MinTTL" ∷ "MaxTTL" ∷ [])
        then none
        else if "CachePolicyId" == k
        then some policy
        else lookup k d)
unfolding with_policy elem
lookup-with_policy k policy d =
    let d1 = put "CachePolicyId" policy d in
    let d2 = popped "ForwardedValues" d1 in
    let d3 = popped "DefaultTTL" d2 in
    let d4 = popped "MinTTL" d3 in
    ground (
      arith,
      lookup-put k "CachePolicyId" policy d,
      lookup-popped k "ForwardedValues" d1,
      lookup-popped k "DefaultTTL" d2,
      lookup-popped k "MinTTL" d3,
      lookup-popped k "MaxTTL" d4,
    )

lookup-with_values :
    (k : String) (values : Json) (d : Params)
    → lookup k (with_values values d) ≡ (
        if "CachePolicyId" == k
        then none
        else if "ForwardedValues" == k
        then some values
        else lookup k d)
unfolding with_values
lookup-with_values k values d =
    let d1 = put "ForwardedValues" values d in
    ground (arith, lookup-put k "ForwardedValues" values d, lookup-popped k "CachePolicyId" d1)

lookup-with_origin_policy :
    (k : String) (policy : Json) (d : Params)
    → ("OriginRequestPolicyId" == k) ≡ false
    → lookup k (with_origin_policy policy d) ≡ lookup k d
unfolding with_origin_policy
lookup-with_origin_policy k policy d h =
    ground (arith, lookup-put k "OriginRequestPolicyId" policy d)

policy-gone :
    (policy origin_policy : Json) (d : Params) (k : String)
    → elem k ("ForwardedValues" ∷ "DefaultTTL" ∷ "MinTTL" ∷ "MaxTTL" ∷ []) ≡ true
    → ("OriginRequestPolicyId" == k) ≡ false
    → has k (with_origin_policy origin_policy (with_policy policy d)) ≡ false
unfolding has elem
policy-gone policy origin_policy d k h n = ground (
  arith,
  lookup-with_origin_policy k origin_policy (with_policy policy d) n,
  lookup-with_policy k policy d,
)

policy-IsConsistent :
    (policy origin_policy : Json) (d : Params)
    → IsConsistent d (with_origin_policy origin_policy (with_policy policy d))
unfolding has elem
policy-IsConsistent policy origin_policy d =
    let gone = policy-gone policy origin_policy d in
    let e = with_policy policy d in
    let at = λ (k : String). lookup-with_origin_policy k origin_policy e in
    let there = λ (k : String). lookup-with_policy k policy d in
    record {
      one_way = ground (
        arith,
        at "ForwardedValues",
        at "CachePolicyId",
        there "ForwardedValues",
        there "CachePolicyId",
      );
      no_ttl = λ c. (gone "DefaultTTL" refl refl, gone "MinTTL" refl refl, gone "MaxTTL" refl refl);
      others = λ k h. ground (arith, at k, there k);
    }

values-IsConsistent :
    (values origin_policy : Json) (d : Params)
    → IsConsistent d (with_origin_policy origin_policy (with_values values d))
unfolding has elem
values-IsConsistent values origin_policy d =
    let e = with_values values d in
    let at = λ (k : String). lookup-with_origin_policy k origin_policy e in
    let there = λ (k : String). lookup-with_values k values d in
    record {
      one_way = ground (
        arith,
        at "ForwardedValues",
        at "CachePolicyId",
        there "ForwardedValues",
        there "CachePolicyId",
      );
      no_ttl = λ c. absurd (ground (arith, at "CachePolicyId", there "CachePolicyId"));
      others = λ k h. ground (arith, at k, there k);
    }

finished-IsConsistent :
    (b : Bool) (cookies headers : Result Json) (policy origin_policy : Json) (old new : Params)
    → finished b cookies headers policy origin_policy old ≡ ok new
    → IsConsistent old new
unfolding finished
finished-IsConsistent true cookies headers policy origin_policy old new h =
    subst (IsConsistent old) (ground arith) (policy-IsConsistent policy origin_policy old)
finished-IsConsistent false (err e) headers policy origin_policy old new h = absurd (ground arith)
finished-IsConsistent false (ok c) (err e) policy origin_policy old new h = absurd (ground arith)
finished-IsConsistent false (ok c) (ok v) policy origin_policy old new h =
    subst (IsConsistent old) (ground arith)
      (values-IsConsistent (forwarded_values c v) origin_policy old)

-- If update_default_cache_behavior returns, the behaviour has either CachePolicyId or
-- ForwardedValues; with CachePolicyId it has none of the TTLs; every key that the function does not
-- manage has its old value.
pub update_default_cache_behavior-IsConsistent :
    (i : ServiceInstance) (old new : Params)
    → update_default_cache_behavior i old ≡ ok new
    → IsConsistent old new
unfolding update_default_cache_behavior
update_default_cache_behavior-IsConsistent i old new h =
    let policy = preferred i.cache_policy_id "CachePolicyId" old in
    finished-IsConsistent (truthy policy) (get_cookie_policy i) (get_header_policy i) policy
      (preferred i.origin_request_policy_id "OriginRequestPolicyId" old) old new h
