-- ===== src/Tags.antt =====
-- broker/lib/tags.py
pub mod Keys
use external_domain_broker.Prelude.{
  String, string_eq, ◌==◌, Bool, List, [], ◌∷◌, ◌++◌, map, elem, Result, ok, err, ◌>>=◌,
  runtime_error, plain, value, if◌then◌else◌, filter,
}
use external_domain_broker.Env.{Env}
use external_domain_broker.Models.{Tag}

unfoldable pub tag_key_exists : List Tag → String → Bool
tag_key_exists tags tag_key = elem tag_key (map (λ (t : Tag). t.key) tags)

unfoldable pub add_tag : List Tag → Tag → Result (List Tag)
unfolding tag_key_exists
add_tag tags tag =
    if tag_key_exists tags tag.key
    then err (runtime_error (value tag.key))
    else ok (tags ++ tag ∷ [])

add_tags : List Tag → List (String × String) → Result (List Tag)
unfolding add_tag
add_tags tags [] = ok tags
add_tags tags ((k, v) ∷ rest) = do
  more ← add_tag tags (record { key = k; value = v })
  add_tags more rest

unfoldable pub create_resource_tags : List (String × String) → Result (List Tag)
unfolding add_tags
create_resource_tags tags = add_tags [] tags

-- The keyword arguments of `generate_tags`.
pub record TagSource : Type 0 where
  pub instance_guid : String
  pub offering_name : String
  pub plan_name : String
  pub organization_guid : String
  pub space_guid : String

-- `tags[key] = value` of a dictionary, which keeps the order of its keys
unfoldable pub put_tag : String → String → List (String × String) → List (String × String)
put_tag key text [] = (key, text) ∷ []
put_tag key text ((k, v) ∷ tags) =
    let rest = put_tag key text tags in if k == key then (key, text) ∷ tags else (k, v) ∷ rest

abbrev when_given : String → String → List (String × String) → List (String × String)
unfolding put_tag
when_given key text tags = if text == "" then tags else put_tag key text tags

-- `default_tags`
abbrev default_tags : String → List (String × String)
default_tags environment =
    ("client", "Cloud Foundry")
    ∷ ("broker", "External domain broker")
    ∷ ("environment", environment)
    ∷ []

unfoldable pub space_tags : Env → String → List (String × String) → Result (List (String × String))
unfolding put_tag
space_tags env guid tags = if guid == "" then ok tags else do
  name ← env.space_name guid
  ok (put_tag "Space name" name (put_tag "Space GUID" guid tags))

unfoldable pub organization_tags :
    Env → String → List (String × String) → Result (List (String × String))
unfolding put_tag
organization_tags env guid tags = if guid == "" then ok tags else do
  name ← env.organization_name guid
  ok (put_tag "Organization name" name (put_tag "Organization GUID" guid tags))

unfoldable pub generate_tags : Env → String → TagSource → Result (List (String × String))
unfolding put_tag space_tags organization_tags
generate_tags env environment t = do
  let named = when_given "Instance GUID" t.instance_guid (
      when_given "Service plan name" t.plan_name
        (when_given "Service offering name" t.offering_name (default_tags environment)))
  in_space ← space_tags env t.space_guid named
  organization_tags env t.organization_guid in_space

-- A plan of the catalog.
pub record Plan : Type 0 where
  pub id : String
  pub name : String

-- `ProvisionDetails` of openbrokerapi, without the parameters.
pub record Details : Type 0 where
  pub plan_id : String
  pub organization_guid : String
  pub space_guid : String

unfoldable pub instance_tags_of : Env → String → Details → String → List Plan → Result (List Tag)
unfolding create_resource_tags generate_tags
instance_tags_of env instance_id details offering [] = err (runtime_error (value details.plan_id))
instance_tags_of env instance_id details offering (plan ∷ []) = do
  tags ← generate_tags env env.flask_env (record {
    instance_guid = instance_id;
    offering_name = offering;
    plan_name = plan.name;
    organization_guid = details.organization_guid;
    space_guid = details.space_guid;
  })
  create_resource_tags tags
instance_tags_of env instance_id details offering (plan ∷ other ∷ plans) =
    err (runtime_error (value details.plan_id))

unfoldable pub generate_instance_tags :
    Env → String → Details → String → List Plan → Result (List Tag)
unfolding filter instance_tags_of
generate_instance_tags env instance_id details offering plans =
    instance_tags_of env instance_id details offering
      (filter (λ (p : Plan). p.id == details.plan_id) plans)
