-- ===== src/Pipelines/Protocol.antt =====
-- The order in which the tasks of a pipeline depend on each other, as a state machine.
use external_domain_broker.Prelude.{
  Bool, true, false, not, ◌&&◌, Option, none, some, List, [], ◌∷◌, ◌≡◌, refl, if◌then◌else◌,
}
use external_domain_broker.Pipelines.Calls.{Call, Task, Pipeline}
use external_domain_broker.Pipelines.Queues.{calls}

-- How far the certificate of the pipeline is.
pub data Certification : Type 0 where
  untouched initiated recorded answered retrieved uploaded : Certification

-- What the pipeline has done to the distribution.
pub data Distribution : Type 0 where
  steady deploying disabling disabled deleted : Distribution

pub record Progress : Type 0 where
  pub certification : Certification
  pub distribution : Distribution
  -- DNS records were changed and not waited for
  pub pending : Bool

abbrev at : Certification → Certification → Bool
at untouched untouched = true
at initiated initiated = true
at recorded recorded = true
at answered answered = true
at retrieved retrieved = true
at uploaded uploaded = true
at _ _ = false

-- A certificate can be used: the pipeline's own is uploaded, or it makes none.
abbrev is_usable : Certification → Bool
is_usable untouched = true
is_usable uploaded = true
is_usable _ = false

abbrev is : Distribution → Distribution → Bool
is steady steady = true
is deploying deploying = true
is disabling disabling = true
is disabled disabled = true
is deleted deleted = true
is _ _ = false

abbrev when : Bool → Progress → Option Progress
when b p = if b then some p else none

abbrev upload : Progress → Option Progress
upload p = when (at retrieved p.certification) (record p { certification = uploaded })

abbrev deploy : Progress → Option Progress
deploy p =
    when (is_usable p.certification && is steady p.distribution)
      (record p { distribution = deploying })

abbrev use_certificate : Progress → Option Progress
use_certificate p = when (is_usable p.certification) p

-- Of something that traffic or the authority may still need, or at the end: no change is pending.
abbrev settled : Progress → Option Progress
settled p = when (is_usable p.certification && not p.pending) p

-- What a task needs, and what is so after it.
abbrev pub advance : Task → Progress → Option Progress
advance Task.initiate_challenges p =
    when (at untouched p.certification) (record p { certification = initiated })
advance Task.create_txt_records p =
    when (at initiated p.certification && not p.pending)
      (record p { certification = recorded; pending = true })
advance Task.wait_for_changes p = when p.pending (record p { pending = false })
advance Task.answer_challenges p =
    when (at recorded p.certification && not p.pending) (record p { certification = answered })
advance Task.retrieve_certificate p =
    when (at answered p.certification) (record p { certification = retrieved })
advance Task.upload_server_certificate p = upload p
advance Task.upload_cloudfront_server_certificate p = upload p
advance Task.create_distribution p = deploy p
advance Task.update_distribution p = deploy p
advance Task.update_certificate p = use_certificate p
advance Task.add_certificate_to_alb p = use_certificate p
advance Task.wait_for_distribution p =
    when (is deploying p.distribution) (record p { distribution = steady })
advance Task.create_alias_records p =
    when (not p.pending && is steady p.distribution) (record p { pending = true })
advance Task.remove_certificate_from_previous_alb p = settled p
advance Task.remove_certificate_from_previous_alb_during_update_to_dedicated p = settled p
advance Task.remove_alb_certificate_during_update_to_cdn_dedicated_waf p = settled p
advance Task.delete_previous_server_certificate p = settled p
advance Task.delete_previous_alb_server_certificate p = settled p
advance Task.disable_distribution p =
    when (is steady p.distribution) (record p { distribution = disabling })
advance Task.wait_for_distribution_disabled p =
    when (is disabling p.distribution) (record p { distribution = disabled })
advance Task.delete_distribution p =
    when (is disabled p.distribution) (record p { distribution = deleted })
advance Task.provision p = when (is steady p.distribution) p
advance Task.update_complete p = when (is steady p.distribution) p
advance _ p = some p

abbrev follow_calls : List Call → Progress → Option Progress
follow_calls [] p = settled p
follow_calls (c ∷ cs) p = elim (advance c.task p) [ none ↦ none | some q ↦ follow_calls cs q ]

abbrev pub begin : Progress
begin = record { certification = untouched; distribution = steady; pending = false }

-- The calls can be made in this order, and leave no change pending.
abbrev pub is_ordered : List Call → Bool
is_ordered cs = elim (follow_calls cs begin) [ none ↦ false | some p ↦ true ]

-- In every pipeline: TXT records are made after the challenges are initiated; the challenges are
-- answered after the TXT records are made and waited for; the certificate is retrieved after that,
-- then uploaded, and only then used, by a distribution or a load balancer. Each wait for DNS changes
-- comes after a change that is not yet waited for, and none is left at the end or when the old
-- certificate is removed or deleted. Alias records are made only once the distribution that was
-- created or updated is waited for. A distribution is deleted after it is disabled and waited for.
pub is_ordered-calls : (p : Pipeline) → is_ordered (calls p) ≡ true
unfolding calls
is_ordered-calls Pipeline.cdn_deprovision = refl
is_ordered-calls _ = refl
