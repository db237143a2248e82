-- ===== src/Pipelines/Order.antt =====
-- The logging configurations of web ACLs in the pipelines.
use external_domain_broker.Prelude.{Bool, true, false, not, ◌&&◌, ◌||◌, List, [], ◌∷◌}
use external_domain_broker.Pipelines.Calls.{Call, Task, Pipeline}

abbrev Test : Type 0
Test = Task → Bool

abbrev occurs : Test → List Call → Bool
occurs p [] = false
occurs p (c ∷ cs) = p c.task || occurs p cs

-- Every call that passes the second test has one before it that passes the first.
abbrev only_after : Bool → Test → Test → List Call → Bool
only_after seen a b [] = true
only_after seen a b (c ∷ cs) = (not (b c.task) || seen) && only_after (seen || a c.task) a b cs

abbrev is_cdn_acl : Test
is_cdn_acl Task.create_cdn_web_acl = true
is_cdn_acl _ = false

abbrev is_cdn_log : Test
is_cdn_log Task.put_cdn_waf_logging_configuration = true
is_cdn_log _ = false

abbrev is_alb_acl : Test
is_alb_acl Task.create_alb_web_acl = true
is_alb_acl _ = false

abbrev is_alb_log : Test
is_alb_log Task.put_alb_waf_logging_configuration = true
is_alb_log _ = false

-- `a` before `b` wherever `b` occurs.
abbrev first : Test → Test → List Call → Bool
first = only_after false

-- Every web ACL that is made gets its logging configuration.
abbrev pub logs : List Call → Bool
logs cs =
    first is_cdn_acl is_cdn_log cs
    && first is_alb_acl is_alb_log cs
    && (not (occurs is_cdn_acl cs) || occurs is_cdn_log cs)
    && (not (occurs is_alb_acl cs) || occurs is_alb_log cs)

-- The move of a CDN instance to its own web ACL.
abbrev pub moves_to_waf : Pipeline → Bool
moves_to_waf Pipeline.cdn_to_cdn_dedicated_waf_update = true
moves_to_waf _ = false
