-- ===== src/Api/Served.antt =====
-- `update` of broker/api.py, and the domains of the instances.
use external_domain_broker.Prelude.{
  ℕ, String, string_eq, Bool, true, not, Option, none, some, List, [], ◌∷◌, ◌++◌, ◌≡◌, refl, sym,
  ◌∙◌, subst, ok, err, Error, arith, is_empty, or_raise, type_error, name_error, bad_request,
  async_required, plain,
}
use external_domain_broker.Env.{Env}
use external_domain_broker.Pipelines.{Pipeline, Job, queue}
use external_domain_broker.Utils.{parse_domain_options}
use external_domain_broker.Models.{
  ServiceInstance, Session, Exec, pure, raise, lift, require, ◌>>=◌, ◌>>◌, get_instance,
  put_instance, commit, add_operation, find, Action, has_active_operations,
}
use external_domain_broker.Models.Post.{
  Any, Post, ok-Post, err-Post, pure-Post, bind-Post, lift-Post, read-Post, choice-Post,
  require-Post, weaken-Post,
}
use external_domain_broker.Domains.{is_live, validate_domain_name_changes, validate_unique, taken}
use external_domain_broker.Domains.Holders.{IsExclusive, Fits-stored, alone_of_taken, find-id}
use external_domain_broker.Api.Catalog.{Request, Reply, params_of, done, is_async}
use external_domain_broker.Api.Provision.{enqueue}
use external_domain_broker.Api.Deprovision.{found}
use external_domain_broker.Api.Branches.{Chosen, branch}
use external_domain_broker.Api.Update.{
  update, update_instance, finish_update, apply_domains, queue_of, is_busy, check_domains,
}
use external_domain_broker.Api.Keeps.{Sound, Writes, Writes-Same, put_instance-Post, commit-Post}
use external_domain_broker.Cdn.Same.{Same}
use external_domain_broker.Api.Exclusive.{Writable, branch-Post}

-- Of the session and of what is committed.
pub record Both (s : Session) : Type 0 where
  pub rows : IsExclusive s.working.instances
  pub stored : IsExclusive s.committed.instances

module _ (env : Env) (i : ServiceInstance) where
  free_of_change :
      (rows : List ServiceInstance) (requested : List String) (d : String) (ds : List String)
      → validate_domain_name_changes env rows requested i ≡ ok (d ∷ ds)
      → is_empty (taken (some i.id) rows (d ∷ ds)) ≡ true
  unfolding validate_domain_name_changes validate_unique
  free_of_change rows requested d ds h = ground arith

  no_change-Same : Same i (apply_domains [] i)
  unfolding apply_domains
  no_change-Same = ground arith

  -- The instance that a request has found, with the domains that it has validated.
  apply_domains-Writes :
      (id : String) (requested domains : List String) (s : Session)
      → validate_domain_name_changes env s.working.instances requested i ≡ ok domains
      → Sound id s
      → find id s.working.instances ≡ some i
      → is_live i ≡ true
      → Writes id (apply_domains domains i) s
  unfolding apply_domains
  apply_domains-Writes id requested [] s h p f live =
      Writes-Same id i (apply_domains [] i) s no_change-Same (record {
        same_id = find-id id s.working.instances i f;
        fits = Fits-stored s.working.instances id i p.rows f live;
        is_not_gone = live;
      })
  apply_domains-Writes id requested (d ∷ ds) s h p f live = record {
    same_id = find-id id s.working.instances i f;
    fits = record {
      alone = λ e a k held.
          alone_of_taken i.id s.working.instances e a (d ∷ ds)
            (free_of_change s.working.instances requested d ds h) k held;
    };
    is_not_gone = live;
  }

pub enqueue-Post :
    (P : Session → Type 0) (pipeline : Pipeline) (operation_id : ℕ) (correlation : Option String)
    (s : Session)
    → P s
    → ((jobs : List Job) → P (record s { queued = jobs }))
    → Post P Any (enqueue pipeline operation_id correlation s)
unfolding enqueue
enqueue-Post P pipeline operation_id correlation s p k =
    elim (queue pipeline operation_id correlation)
      as (λ o. Post {A = Unit {0}} P Any (elim o [
        | ok job ↦ (ok tt, record s { queued = s.queued ++ job ∷ [] })
        | err e ↦ (err e, s)
      ])) [
        | ok job ↦
            ok-Post P Any tt (record s { queued = s.queued ++ job ∷ [] }) (k (s.queued ++ job ∷ []))
              tt
        | err e ↦ err-Post P Any e s p
      ]

module _ (id : String) where
  queued-Sound :
      (s : Session) (jobs : List Job) → Sound id s → Sound id (record s { queued = jobs })
  queued-Sound s jobs p = record { rows = p.rows; stored = p.stored; live = p.live }

  -- A new operation is no change of the instances.
  add_operation-Post :
      (i : ServiceInstance) (action : Action) (s : Session)
      → Sound id s
      → Writes id i s
      → Post (Sound id) (λ _. Writes id i) (add_operation i.id action s)
  unfolding add_operation
  add_operation-Post i action s p w =
      ok-Post (Sound id) (λ _. Writes id i) _ _
        (record { rows = p.rows; stored = p.stored; live = p.live })
        (record {
          same_id = w.same_id;
          fits = record { alone = w.fits.alone };
          is_not_gone = w.is_not_gone;
        })

  queue_of-Post :
      (q : Option Pipeline) (s : Session) → Sound id s → Post (Sound id) Any (queue_of q s)
  unfolding queue_of raise pure
  queue_of-Post none s p = err-Post (Sound id) Any name_error s p
  queue_of-Post (some q) s p = ok-Post (Sound id) Any q s p tt

  finish_update-Post :
      (r : Request) (c : Chosen) (s : Session)
      → Sound id s
      → Writes id c.changed s
      → Post (Sound id) Any (finish_update r c s)
  unfolding finish_update
  finish_update-Post r c s p w =
      choice-Post (Sound id) Any c.noop (pure done) _ s (pure-Post (Sound id) Any done s p tt) (
        bind-Post (Sound id) (λ _. Writes id c.changed) Any
          (add_operation c.changed.id Action.update) _ s
          (add_operation-Post c.changed Action.update s p w)
          λ operation_id t q v.
            bind-Post (Sound id) (λ _. Writes id c.changed) Any (put_instance c.changed) _ t
              (put_instance-Post id c.changed t q v)
              λ _ u q v.
                bind-Post (Sound id) Any Any commit _ u (commit-Post id (λ _. Unit {0}) u q tt)
                  λ _ x q _.
                    bind-Post (Sound id) Any Any (queue_of c.queue) _ x (queue_of-Post c.queue x q)
                      λ pipeline y q _.
                        bind-Post (Sound id) Any Any
                          (enqueue pipeline operation_id r.correlation_id) _ y
                          (enqueue-Post (Sound id) pipeline operation_id r.correlation_id y q
                            λ jobs. queued-Sound y jobs q)
                          λ _ z q _. pure-Post (Sound id) Any (is_async operation_id) z q tt)

Sound-of_found :
    (id : String) (i : ServiceInstance) (s : Session)
    → Both s
    → find id s.working.instances ≡ some i
    → is_live i ≡ true
    → Sound id s
Sound-of_found id i s b f live = record {
  rows = b.rows;
  stored = b.stored;
  live = λ j h. ground arith;
}

Both-of_Sound : (id : String) (s : Session) → Sound id s → Both s
Both-of_Sound id s p = record { rows = p.rows; stored = p.stored }

is_busy_lem :
    (i : ServiceInstance) (s : Session)
    → is_busy i s ≡ (ok (has_active_operations i.id s.working.operations), s)
unfolding is_busy
is_busy_lem i s = refl

check_domains_lem :
    (env : Env) (domains : List String) (i : ServiceInstance) (s : Session)
    → check_domains env domains i s
      ≡ (validate_domain_name_changes env s.working.instances domains i, s)
unfolding check_domains
check_domains_lem env domains i s = refl

-- The parts of `update_instance`, the last one first.
module _ (env : Env) (r : Request) (i : ServiceInstance) where
  abbrev choose : List String → Exec Reply
  choose domains =
      branch env r (apply_domains domains i) (not (is_empty domains)) i.instance_type
      >>= finish_update r

  abbrev checked : List String → Exec Reply
  checked requested = check_domains env requested i >>= choose

  abbrev wanted : Option (List String) → Exec Reply
  wanted parsed = lift (or_raise type_error parsed) >>= checked

  abbrev idle : Bool → Exec Reply
  idle busy =
      require (not busy) (bad_request (plain "Instance has an active operation in progress"))
      >> (lift (parse_domain_options env (params_of r)) >>= wanted)

  module _ (id : String) (s : Session) (p : Sound id s) (f : find id s.working.instances ≡ some i)
      (live : is_live i ≡ true) where
    choose-Post :
        (requested domains : List String)
        → validate_domain_name_changes env s.working.instances requested i ≡ ok domains
        → Post (Sound id) Any (choose domains s)
    unfolding apply_domains
    choose-Post requested domains e =
        bind-Post (Sound id) (Writable id) Any _ (finish_update r) s
          (branch-Post id env r (apply_domains domains i) s p
            (apply_domains-Writes env i id requested domains s e p f live) (not (is_empty domains))
            i.instance_type)
          λ c t q w. finish_update-Post id r c t q w

    idle-Post : (busy : Bool) → Post (Sound id) Any (idle busy s)
    idle-Post busy =
        require-Post (Sound id) Any (not busy)
          (bad_request (plain "Instance has an active operation in progress")) _ s p
          λ _.
            lift-Post (Sound id) Any wanted s p (parse_domain_options env (params_of r)) λ parsed _.
              lift-Post (Sound id) Any checked s p (or_raise type_error parsed) λ requested _.
                read-Post (Sound id) Any choose s p (check_domains env requested i)
                  (validate_domain_name_changes env s.working.instances requested i)
                  (check_domains_lem env requested i s) λ domains e. choose-Post requested domains e

  update_instance-Post :
      (id : String) (s : Session)
      → Both s
      → find id s.working.instances ≡ some i
      → Post Both Any (update_instance env r i s)
  unfolding update_instance
  update_instance-Post id s b f =
      require-Post Both Any (is_live i)
        (bad_request (plain "Cannot update instance because it was already canceled")) _ s b
        λ live.
          let p = Sound-of_found id i s b f live in
          weaken-Post ((is_busy i >>= idle) s) (Both-of_Sound id) (λ _ _ _ _. tt)
            (read-Post (Sound id) Any idle s p (is_busy i)
              (ok (has_active_operations i.id s.working.operations)) (is_busy_lem i s)
              λ busy _. idle-Post id s p f live busy)

found-Post :
    {A : Type 0} (o : Option ServiceInstance) (f : ServiceInstance → Exec A) (missing : Exec A)
    (s : Session)
    → ((i : ServiceInstance) → o ≡ some i → Post Both Any (f i s))
    → Post Both Any (missing s)
    → Post Both Any (found o f missing s)
found-Post none f missing s h k = k
found-Post (some i) f missing s h k = h i refl

-- The load of the instance of a request, and what is done with it.
pub load-Post :
    {A : Type 0} (id : String) (f : ServiceInstance → Exec A) (missing : Exec A) (s : Session)
    → Both s
    → ((i : ServiceInstance) → find id s.working.instances ≡ some i → Post Both Any (f i s))
    → Post Both Any (missing s)
    → Post Both Any ((get_instance id >>= λ o. found o f missing) s)
unfolding get_instance
load-Post id f missing s b h k =
    bind-Post Both (λ o t. (o ≡ find id s.working.instances) × (t ≡ s)) Any (get_instance id)
      (λ o. found o f missing) s (ok-Post Both _ _ s b (refl, refl))
      λ o t q (e, same).
        subst (λ t. Post Both Any (found o f missing t)) (sym same)
          (found-Post o f missing s (λ i g. h i (sym e ∙ g)) k)

pub raise-Post : {A : Type 0} (e : Error) (s : Session) → Both s → Post {A = A} Both Any (raise e s)
unfolding raise
raise-Post e s b = err-Post Both Any e s b

pub update-Post : (env : Env) (r : Request) (s : Session) → Both s → Post Both Any (update env r s)
unfolding update
update-Post env r s b = require-Post Both Any r.async_allowed async_required _ s b λ _.
    load-Post r.instance_id (update_instance env r)
      (raise (bad_request (plain "Service instance does not exist"))) s b
      (λ i f. update_instance-Post env r i r.instance_id s b f)
      (raise-Post (bad_request (plain "Service instance does not exist")) s b)
