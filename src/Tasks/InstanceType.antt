-- ===== src/Tasks/InstanceType.antt =====
-- broker/tasks/update_instances.py, in a database session of its own.
use external_domain_broker.Prelude.{
  String, string_eq, eq_iff, eq_refl, ◌==◌, Bool, true, false, Option, none, some, List, [], ◌∷◌,
  Result, ok, err, ◌≡◌, refl, sym, subst, ap, ◌∙◌, arith, inl, inr, attribute_error,
  not_implemented, if◌then◌else◌,
}
use external_domain_broker.Models.{
  ServiceInstance, InstanceType, alb, cdn, dedicated_alb, migration, cdn_dedicated_waf,
  dedicated_alb_cdn_dedicated_waf_migration, Session, Exec, proceed, ◌>>=◌, ◌>>◌, find, write,
  set_type, reload, same_type, can_update_to_type, change_instance_type, put_instance, commit,
}
use external_domain_broker.Domains.Holders.{find-id, find-write}

-- `operation.service_instance`
unfoldable pub load_instance : String → Exec ServiceInstance
unfolding find
load_instance id s = elim (find id s.working.instances) [
  | none ↦ (err attribute_error, s)
  | some i ↦ (ok i, s)
]

unfoldable pub change_to_cdn_dedicated_waf_instance_type : String → Exec (Unit {0})
unfolding load_instance change_instance_type put_instance commit ◌>>=◌
change_to_cdn_dedicated_waf_instance_type id = do
  i ← load_instance id
  j ← change_instance_type i cdn_dedicated_waf
  put_instance j
  commit

abbrev pub retyped : ServiceInstance → ServiceInstance
retyped i = record i { instance_type = cdn_dedicated_waf }

abbrev retyped_option : Option ServiceInstance → Option ServiceInstance
retyped_option none = none
retyped_option (some i) = some (retyped i)

found_retyped :
    (id : String) (rows : List ServiceInstance) (i : ServiceInstance)
    → find id rows ≡ some i
    → find id (set_type id cdn_dedicated_waf rows) ≡ some (retyped i)
unfolding find set_type
found_retyped id [] i h = absurd (ground arith)
found_retyped id (j ∷ rows) i h = go (j.id == id) refl h (found_retyped id rows i)
  where
    go :
        (b : Bool)
        → (j.id == id) ≡ b
        → (if b then some j else find id rows) ≡ some i
        → (find id rows ≡ some i → find id (set_type id cdn_dedicated_waf rows) ≡ some (retyped i))
        → find id (
            if b
            then retyped j ∷ set_type id cdn_dedicated_waf rows
            else j ∷ set_type id cdn_dedicated_waf rows)
          ≡ some (retyped i)
    go true e k rest =
        ap
          (λ (b : Bool).
            if b then some (retyped j) else find id (set_type id cdn_dedicated_waf rows))
          e
        ∙ ap retyped_option k
    go false e k rest =
        ap (λ (b : Bool). if b then some j else find id (set_type id cdn_dedicated_waf rows)) e
        ∙ rest k

-- The other rows are as they were.
others_found :
    (a id : String) (rows : List ServiceInstance)
    → (a == id) ≡ false
    → find a (set_type id cdn_dedicated_waf rows) ≡ find a rows
unfolding find set_type
others_found a id [] h = refl
others_found a id (j ∷ rows) h =
    ground (arith, others_found a id rows h, eq_iff j.id id, eq_iff j.id a, eq_iff a id)

found_written :
    (id : String) (j i : ServiceInstance) (rows : List ServiceInstance)
    → j.id ≡ id
    → find id rows ≡ some i
    → find id (write j rows) ≡ some j
unfolding find write
found_written id j i [] e h = absurd (ground arith)
found_written id j i (k ∷ rows) e h =
    ground (arith, found_written id j i rows, eq_iff k.id id, eq_iff k.id j.id, eq_iff j.id id)

other_written :
    (a : String) (j : ServiceInstance) (rows : List ServiceInstance)
    → (a == j.id) ≡ false
    → find a (write j rows) ≡ find a rows
other_written a j rows h = elim (find-write a j rows) [
  | inl e ↦ e
  | inr (e, k) ↦ absurd (no (subst (λ b. (b == j.id) ≡ false) (sym k) h) (eq_refl j.id))
]
  where
    no : {b : Bool} → b ≡ false → b ≡ true → ⊥
    no h k = ground arith

same_type_lem : (a : InstanceType) → same_type a cdn_dedicated_waf ≡ true → a ≡ cdn_dedicated_waf
same_type_lem cdn_dedicated_waf h = refl
same_type_lem alb h = absurd (ground arith)
same_type_lem cdn h = absurd (ground arith)
same_type_lem dedicated_alb h = absurd (ground arith)
same_type_lem migration h = absurd (ground arith)
same_type_lem dedicated_alb_cdn_dedicated_waf_migration h = absurd (ground arith)

module _ (id : String) (i : ServiceInstance) (rows : List ServiceInstance) where
  -- The task returned, and of the committed rows this one has the class and the others are as before.
  abbrev pub IsChanged : Result (Unit {0}) × Session → Type 0
  IsChanged x =
      (x.0 ≡ ok tt)
      × ((a : String)
          → find a x.1.committed.instances ≡ (if a == id then some (retyped i) else find a rows))

  saved :
      (s : Session) (o : Option ServiceInstance)
      → find id s.working.instances ≡ o
      → o ≡ some (retyped i)
      → ((a : String) → (a == id) ≡ false → find a s.working.instances ≡ find a rows)
      → IsChanged (((λ u. (reload o, u)) >>= λ j. put_instance j >> commit) s)
  unfolding ◌>>=◌ put_instance commit
  saved s none h k g = absurd (ground arith)
  saved s (some j) h k g = (refl, λ a. by_id a (a == id) refl)
    where
      by_id :
          (a : String) (b : Bool)
          → (a == id) ≡ b
          → find a (write j s.working.instances) ≡ (if b then some (retyped i) else find a rows)
      by_id a true e =
          let same = (eq_iff a id).0 e in
          ap (λ x. find x (write j s.working.instances)) same
          ∙ found_written id j j s.working.instances (find-id id s.working.instances j h) h
          ∙ k
      by_id a false e =
          other_written a j s.working.instances
            (subst (λ x. (a == x) ≡ false) (sym (find-id id s.working.instances j h)) e)
          ∙ g a e

  -- What follows the load, by the two tests.
  abbrev change_by : Bool → Bool → Exec ServiceInstance
  change_by same can s =
      if same
      then (ok i, s)
      else if can
      then (let next = set_type i.id cdn_dedicated_waf s.working.instances in
          (reload (find i.id next), record s { working = record s.working { instances = next } }))
      else (err not_implemented, s)

  changed :
      (s : Session) (same can : Bool)
      → s.working.instances ≡ rows
      → find id s.working.instances ≡ some i
      → same_type i.instance_type cdn_dedicated_waf ≡ same
      → can ≡ true
      → IsChanged ((change_by same can >>= λ j. put_instance j >> commit) s)
  unfolding ◌>>=◌
  changed s true can w h e k =
      saved s (some i) h
        (ap (λ kind. some (record i { instance_type = kind })) (same_type_lem i.instance_type e))
        λ a n. ap (find a) w
  changed s false true w h e k =
      let own = find-id id s.working.instances i h in
      let next = set_type i.id cdn_dedicated_waf s.working.instances in
      saved (record s { working = record s.working { instances = next } }) (find i.id next)
        (ap (λ a. find a next) (sym own))
        (found_retyped i.id s.working.instances i
          (subst (λ a. find a s.working.instances ≡ some i) (sym own) h))
        λ a n.
          others_found a i.id s.working.instances (subst (λ x. (a == x) ≡ false) (sym own) n)
          ∙ ap (find a) w
  changed s false false w h e k = absurd (ground arith)

  refused :
      (s : Session) (same can : Bool) (f : ServiceInstance → Exec (Unit {0}))
      → same ≡ false
      → can ≡ false
      → (change_by same can >>= f) s ≡ (err not_implemented, s)
  unfolding ◌>>=◌
  refused s true can f e k = absurd (ground arith)
  refused s false true f e k = absurd (ground arith)
  refused s false false f e k = refl

not_same :
    (a : InstanceType)
    → can_update_to_type a cdn_dedicated_waf ≡ false
    → same_type a cdn_dedicated_waf ≡ false
not_same a h = ground arith

load_instance_found :
    {B : Type 0} (s : Session) (id : String) (i : ServiceInstance) (g : ServiceInstance → Exec B)
    → find id s.working.instances ≡ some i
    → (load_instance id >>= g) s ≡ g i s
unfolding load_instance ◌>>=◌
load_instance_found s id i g f =
    ap
      (λ (o : Option ServiceInstance).
        let x = elim o as (λ p. Result ServiceInstance × Session) [
          | none ↦ (err attribute_error, s)
          | some j ↦ (ok j, s)
        ] in
        proceed (x.0) g (x.1))
      f

-- In a new session in which the instance of the operation is stored: if its class is the CDN class
-- with a dedicated web ACL, or can become it, the task returns, and of the committed rows this one
-- has the class and is otherwise as it was, and every other is as it was. If the class can not
-- become it, the task raises and nothing is committed.
pub change_to_cdn_dedicated_waf_instance_type_lem :
    (id : String) (i : ServiceInstance) (s : Session)
    → s.working ≡ s.committed
    → find id s.committed.instances ≡ some i
    → (can_update_to_type i.instance_type cdn_dedicated_waf ≡ true
        → IsChanged id i s.committed.instances (change_to_cdn_dedicated_waf_instance_type id s))
      × (can_update_to_type i.instance_type cdn_dedicated_waf ≡ false
          → change_to_cdn_dedicated_waf_instance_type id s ≡ (err not_implemented, s))
unfolding change_to_cdn_dedicated_waf_instance_type change_instance_type
change_to_cdn_dedicated_waf_instance_type_lem id i s w h =
    let found = subst (λ db. find id db.instances ≡ some i) (sym w) h in
    let finish = λ (j : ServiceInstance). put_instance j >> commit in
    let loaded =
      load_instance_found s id i (λ j. change_instance_type j cdn_dedicated_waf >>= finish) found in
    (
      λ can. subst (IsChanged id i s.committed.instances) (sym loaded) (
          changed id i s.committed.instances s (same_type i.instance_type cdn_dedicated_waf)
            (can_update_to_type i.instance_type cdn_dedicated_waf) (ap (λ db. db.instances) w) found
            refl can),
      λ can.
          loaded
          ∙ refused id i s.committed.instances s (same_type i.instance_type cdn_dedicated_waf)
              (can_update_to_type i.instance_type cdn_dedicated_waf) finish
              (not_same i.instance_type can) can,
    )
