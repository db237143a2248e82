-- ===== src/Tags/Keys.antt =====
-- The tags that a resource gets.
use external_domain_broker.Prelude.{
  String, string_eq, ◌==◌, false, Option, none, some, List, [], ◌∷◌, ◌≡◌, ok, ◌>>=◌, elem, arith,
  if◌then◌else◌,
}
use external_domain_broker.Env.{Env}
use external_domain_broker.Models.{Tag}
use external_domain_broker.Tags.{
  put_tag, space_tags, organization_tags, add_tags, add_tag, tag_key_exists, create_resource_tags,
  generate_tags, TagSource,
}

-- A key with its value, if it has one.
abbrev pub Row : Type 0
Row = String × Option String

abbrev pub present : List Row → List Tag
present [] = []
present ((k, none) ∷ rows) = present rows
present ((k, some v) ∷ rows) = record { key = k; value = v } ∷ present rows

abbrev pub unless_empty : String → String → Option String
unless_empty test text = if test == "" then none else some text

-- The keys in their order, with the values for a source and the names of its space and organization.
abbrev pub rows_of : String → TagSource → String → String → List Row
rows_of environment t space organization =
    ("client", some "Cloud Foundry")
    ∷ ("broker", some "External domain broker")
    ∷ ("environment", some environment)
    ∷ ("Service offering name", unless_empty t.offering_name t.offering_name)
    ∷ ("Service plan name", unless_empty t.plan_name t.plan_name)
    ∷ ("Instance GUID", unless_empty t.instance_guid t.instance_guid)
    ∷ ("Space GUID", unless_empty t.space_guid t.space_guid)
    ∷ ("Space name", unless_empty t.space_guid space)
    ∷ ("Organization GUID", unless_empty t.organization_guid t.organization_guid)
    ∷ ("Organization name", unless_empty t.organization_guid organization)
    ∷ []

-- If the names of the space and of the organization are found where their ids are given, the
-- resource gets exactly the tags of the table above: each of its keys that has a value, in this
-- order, and none twice; create_resource_tags does not raise.
pub create_resource_tags-generate_tags :
    (env : Env) (environment : String) (t : TagSource) (space organization : String)
    → ((t.space_guid == "") ≡ false → env.space_name t.space_guid ≡ ok space)
    → ((t.organization_guid == "") ≡ false
        → env.organization_name t.organization_guid ≡ ok organization)
    → (generate_tags env environment t >>= create_resource_tags)
      ≡ ok (present (rows_of environment t space organization))
unfolding create_resource_tags generate_tags add_tags add_tag tag_key_exists elem put_tag space_tags
    organization_tags
create_resource_tags-generate_tags env environment t space organization h k = ground (arith, h, k)
