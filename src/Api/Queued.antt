-- ===== src/Api/Queued.antt =====
-- The jobs that the requests of broker/api.py queue, and the operations of the tables.
use external_domain_broker.Prelude.{
  ℕ, String, string_eq, nat_eq, ◌==◌, ◌≡◌, refl, sym, subst, Bool, true, false, ◌||◌, Option, none,
  some, List, [], ◌∷◌, ◌++◌, Result, ok, err, Error, arith, nat_beq_iff, if◌then◌else◌,
  integrity_error, not_implemented,
}
use external_domain_broker.Pipelines.{Pipeline, Job, queue}
use external_domain_broker.Models.{
  ServiceInstance, InstanceType, Operation, Action, Certificate, Session, Exec, pure, raise, lift,
  require, ◌>>=◌, put_instance, insert_instance, add_operation, add_certificate, commit,
  change_instance_type, find, set_type, same_type, can_update_to_type, reload, new_operation,
}
use external_domain_broker.Api.Provision.{enqueue}
use external_domain_broker.Models.Post.{Any, Post, ok-Post, err-Post, pure-Post, bind-Post, if-Post}

unfoldable pub has_id : ℕ → List Operation → Bool
has_id n [] = false
has_id n (o ∷ os) = o.id == n || has_id n os

unfoldable pub waits : ℕ → List Job → Bool
waits n [] = false
waits n (j ∷ js) = j.operation_id == n || waits n js

-- Every queued job has its operation in the committed tables, and the session knows all of those.
pub record Known (s : Session) : Type 0 where
  pub jobs : (n : ℕ) → waits n s.queued ≡ true → has_id n s.committed.operations ≡ true
  pub grows :
      (n : ℕ) → has_id n s.committed.operations ≡ true → has_id n s.working.operations ≡ true

-- A handler that keeps it so.
pub record Keeps {A : Type 0} (m : Exec A) : Type 0 where
  pub keeps : (s : Session) → Known s → Post Known Any (m s)

either-Post : {A : Type 0} (x : Result A × Session) → Known (x.1) → Post Known Any x
either-Post (ok a, s) p = ok-Post Known Any a s p tt
either-Post (err e, s) p = err-Post Known Any e s p

module _ {A B : Type 0} where
  pub Keeps-then :
      (m : Exec A) (f : A → Exec B) → Keeps m → ((a : A) → Keeps (f a)) → Keeps (m >>= f)
  Keeps-then m f h k = record {
    keeps = λ s p. bind-Post Known Any Any m f s (h.keeps s p) λ a t q _. (k a).keeps t q;
  }

module _ {A : Type 0} where
  pub lift-Keeps : (r : Result A) → Keeps (lift r)
  unfolding lift
  lift-Keeps (ok a) = record { keeps = λ s p. ok-Post Known Any a s p tt }
  lift-Keeps (err e) = record { keeps = λ s p. err-Post Known Any e s p }

  pub reads-Keeps : (m : Exec A) → ((s : Session) → (m s).1 ≡ s) → Keeps m
  reads-Keeps m e = record { keeps = λ s p. either-Post (m s) (subst Known (sym (e s)) p) }

  pub pure-Keeps : (a : A) → Keeps (pure a)
  pure-Keeps a = record { keeps = λ s p. pure-Post Known Any a s p tt }

  pub raise-Keeps : (e : Error) → Keeps {A = A} (raise e)
  unfolding raise
  raise-Keeps e = record { keeps = λ s p. err-Post Known Any e s p }

  pub choice-Keeps : (b : Bool) (m n : Exec A) → Keeps m → Keeps n → Keeps (if b then m else n)
  choice-Keeps true m n h k = h
  choice-Keeps false m n h k = k

pub require-Keeps : (b : Bool) (e : Error) → Keeps (require b e)
unfolding require
require-Keeps true e = record { keeps = λ s p. ok-Post Known Any tt s p tt }
require-Keeps false e = record { keeps = λ s p. err-Post Known Any e s p }

pub put_instance-Keeps : (i : ServiceInstance) → Keeps (put_instance i)
unfolding put_instance
put_instance-Keeps i = record {
  keeps = λ s p. ok-Post Known Any tt _ (record { jobs = p.jobs; grows = p.grows }) tt;
}

pub insert_instance-Keeps : (i : ServiceInstance) → Keeps (insert_instance i)
unfolding insert_instance
insert_instance-Keeps i = record {
  keeps = λ s p.
      elim (find i.id s.working.instances)
        as (λ o. Post {A = Unit {0}} Known Any (elim o [
          | some old ↦ (err integrity_error, s)
          | none ↦ (
            ok tt,
            record s { working = record s.working { instances = s.working.instances ++ i ∷ [] } },
          )
        ])) [
          | some old ↦ err-Post Known Any integrity_error s p
          | none ↦ ok-Post Known Any tt _ (record { jobs = p.jobs; grows = p.grows }) tt
        ];
}

pub add_certificate-Keeps : (make : ℕ → Certificate) → Keeps (add_certificate make)
unfolding add_certificate
add_certificate-Keeps make = record {
  keeps = λ s p. ok-Post Known Any _ _ (record { jobs = p.jobs; grows = p.grows }) tt;
}

pub commit-Keeps : Keeps commit
unfolding commit
commit-Keeps = record {
  keeps = λ s p.
      ok-Post Known Any tt _ (record { jobs = λ n h. p.grows n (p.jobs n h); grows = λ n h. h }) tt;
}

pub change_instance_type-Keeps :
    (i : ServiceInstance) (kind : InstanceType) → Keeps (change_instance_type i kind)
unfolding change_instance_type
change_instance_type-Keeps i kind = record {
  keeps = λ s p.
      let rows = set_type i.id kind s.working.instances in
      let t = record s { working = record s.working { instances = rows } } in
      if-Post Known Any (same_type i.instance_type kind) (ok i, s) _ (ok-Post Known Any i s p tt)
        (if-Post Known Any (can_update_to_type i.instance_type kind) (reload (find i.id rows), t)
          (err not_implemented, s)
          (either-Post (reload (find i.id rows), t) (record { jobs = p.jobs; grows = p.grows }))
          (err-Post Known Any not_implemented s p));
}

has_id-append :
    (n : ℕ) (os : List Operation) (o : Operation)
    → has_id n (os ++ o ∷ []) ≡ (has_id n os || o.id == n)
unfolding has_id
has_id-append n [] o = ground arith
has_id-append n (p ∷ os) o = ground (arith, has_id-append n os o)

waits-append :
    (n : ℕ) (js : List Job) (j : Job) → waits n (js ++ j ∷ []) ≡ (waits n js || j.operation_id == n)
unfolding waits
waits-append n [] j = ground arith
waits-append n (k ∷ js) j = ground (arith, waits-append n js j)

queue-id :
    (q : Pipeline) (id : ℕ) (given : Option String) (j : Job)
    → queue q id given ≡ ok j
    → j.operation_id ≡ id
unfolding queue
queue-id q id given j h = ground arith

-- The end of a handler: a new operation, a step in between, the commit, and the queue function.
module _ (id : String) (action : Action) (s : Session) (p : Known s) where
  pub add_operation-Known :
      Post Known (λ n t. has_id n t.working.operations ≡ true) (add_operation id action s)
  unfolding add_operation has_id
  add_operation-Known =
      ok-Post Known (λ n t. has_id n t.working.operations ≡ true) _ _
        (record {
          jobs = p.jobs;
          grows = λ n h.
              (let k = p.grows n h in
                let e =
                  has_id-append n s.working.operations
                    (new_operation s.working.next_operation_id id action) in
                ground arith);
        })
        (let n = s.working.next_operation_id in
          let e = has_id-append n s.working.operations (new_operation n id action) in
          ground (arith, nat_beq_iff n n))

pub commit-Known :
    (n : ℕ) (s : Session)
    → Known s
    → has_id n s.working.operations ≡ true
    → Post Known (λ _ t. has_id n t.committed.operations ≡ true) (commit s)
unfolding commit
commit-Known n s p h =
    ok-Post Known (λ _ t. has_id n t.committed.operations ≡ true) tt _
      (record { jobs = λ m k. p.grows m (p.jobs m k); grows = λ m k. k }) h

pub enqueue-Known :
    (q : Pipeline) (n : ℕ) (given : Option String) (s : Session)
    → Known s
    → has_id n s.committed.operations ≡ true
    → Post Known Any (enqueue q n given s)
unfolding enqueue
enqueue-Known q n given s p h =
    elim (queue q n given)
        as (λ (o : Result Job).
          queue q n given ≡ o
          → Post {A = Unit {0}} Known Any (elim o [
            | ok job ↦ (ok tt, record s { queued = s.queued ++ job ∷ [] })
            | err e ↦ (err e, s)
          ])) [
            | ok job ↦ λ e.
                ok-Post Known Any tt _
                  (record {
                    jobs = λ m k.
                        (let w = waits-append m s.queued job in
                          let same = queue-id q n given job e in
                          ground
                            (arith, p.jobs m, nat_beq_iff n m, nat_beq_iff job.operation_id m));
                    grows = p.grows;
                  })
                  tt
            | err e ↦ λ _. err-Post Known Any e s p
          ]
      refl
