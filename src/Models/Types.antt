-- ===== src/Models/Types.antt =====
-- The classes of service instances: which is a subclass of which, and what may become what.
use external_domain_broker.Prelude.{Bool, true, false, ◌||◌, List, [], ◌∷◌, none, some, ◌&&◌}
use external_domain_broker.Models.Rows.{
  InstanceType, alb, cdn, cdn_dedicated_waf, dedicated_alb, migration,
  dedicated_alb_cdn_dedicated_waf_migration, Operation, OperationState, in_progress, Action,
  provision, deprovision, renew, update, migrate_to_broker,
}

abbrev pub same_type : InstanceType → InstanceType → Bool
same_type alb alb = true
same_type cdn cdn = true
same_type cdn_dedicated_waf cdn_dedicated_waf = true
same_type dedicated_alb dedicated_alb = true
same_type migration migration = true
same_type dedicated_alb_cdn_dedicated_waf_migration dedicated_alb_cdn_dedicated_waf_migration = true
same_type _ _ = false

abbrev pub same_action : Action → Action → Bool
same_action provision provision = true
same_action deprovision deprovision = true
same_action renew renew = true
same_action update update = true
same_action migrate_to_broker migrate_to_broker = true
same_action _ _ = false

-- `update_targets`; the dedicated WAF class inherits the method of its parent.
abbrev pub update_targets : InstanceType → List InstanceType
update_targets cdn = cdn ∷ cdn_dedicated_waf ∷ []
update_targets cdn_dedicated_waf = cdn ∷ cdn_dedicated_waf ∷ []
update_targets alb = alb ∷ dedicated_alb ∷ []
update_targets dedicated_alb = dedicated_alb ∷ dedicated_alb_cdn_dedicated_waf_migration ∷ []
update_targets dedicated_alb_cdn_dedicated_waf_migration = cdn_dedicated_waf ∷ []
update_targets migration = alb ∷ cdn ∷ []

abbrev pub holds_type : InstanceType → List InstanceType → Bool
holds_type t [] = false
holds_type t (u ∷ us) = same_type u t || holds_type t us

abbrev pub can_update_to_type : InstanceType → InstanceType → Bool
can_update_to_type old new = same_type old new || holds_type new (update_targets old)

-- `isinstance(x, CDNServiceInstance)`: the dedicated WAF classes are its subclasses.
abbrev pub is_cdn_instance : InstanceType → Bool
is_cdn_instance cdn = true
is_cdn_instance cdn_dedicated_waf = true
is_cdn_instance dedicated_alb_cdn_dedicated_waf_migration = true
is_cdn_instance _ = false

abbrev pub is_cdn_dedicated_waf_instance : InstanceType → Bool
is_cdn_dedicated_waf_instance cdn_dedicated_waf = true
is_cdn_dedicated_waf_instance dedicated_alb_cdn_dedicated_waf_migration = true
is_cdn_dedicated_waf_instance _ = false

-- In progress and not canceled.
abbrev pub is_in_progress : OperationState → Bool
is_in_progress in_progress = true
is_in_progress _ = false

abbrev pub not_canceled : Operation → Bool
not_canceled op = elim op.canceled_at [ none ↦ true | some t ↦ false ]

abbrev pub is_active : Operation → Bool
is_active op = is_in_progress op.state && not_canceled op
