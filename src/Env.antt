-- ===== src/Env.antt =====
-- What the broker is given from outside: its configuration (broker/config.py), the DNS resolver,
-- the Cloud Foundry API, and CloudFront's lists of managed policies; and Python's
-- methods on texts that depend on the tables of Unicode.
use external_domain_broker.Prelude.{ℕ, String, Bool, Option, List, Result}

-- What `_resolver.resolve(domain, "CNAME")` does: it returns an answer, or raises.
pub data Answer : Type 0 where
  target : String → Answer
  nxdomain no_answer : Answer
  failure : String → Answer

-- An item of a policy list: `none` has no "CachePolicy" key; a policy has a name and an id.
abbrev pub PolicyItem : Type 0
PolicyItem = Option (String × String)

-- One response of a policy listing: its items, and the marker of the next page.
pub record Page : Type 0 where
  pub page_items : List PolicyItem
  pub next_marker : Option String

pub record Env : Type 0 where
  pub resolve : String → Answer
  -- bound on the CNAMEs followed for one domain, and on the pages of one listing
  pub fuel : ℕ
  pub dns_root_domain : String
  pub ignore_duplicate_domains : Bool
  pub default_cloudfront_origin : String
  pub cloudfront_hosted_zone_id : String
  pub flask_env : String
  pub allowed_cache_policies : List String
  pub allowed_origin_request_policies : List String
  pub list_cache_policies : Option String → Result Page
  pub list_origin_request_policies : Option String → Result Page
  pub space_name : String → Result String
  pub organization_name : String → Result String
  -- Python's `str.upper`, `str.lower` and `str.strip`, whose letters and spaces are Unicode's
  pub upper : String → String
  pub lower : String → String
  pub strip : String → String
