-- ===== src/Commands/Old.antt =====
-- The certificates that broker/commands/duplicate_certs.py takes for duplicates.
use external_domain_broker.Prelude.{
  ℕ, nat_eq, String, string_eq, ◌==◌, Bool, true, false, not, ◌&&◌, Option, none, some, List, [],
  ◌∷◌, ◌≡◌, refl, eq_iff, arith, leb, length, All, if◌then◌else◌, ◌⊎◌, inl, inr,
}
use external_domain_broker.Json.{str}
use external_domain_broker.Models.{ServiceInstance, Certificate, InstanceType, same_type}
use external_domain_broker.Tasks.Alb.{LoadBalancers}
use external_domain_broker.Tasks.Iam.{Iam}
use external_domain_broker.Tasks.Work.{Tables}
use external_domain_broker.Tasks.Iam.Previous.{IsRow, filter-IsRow}
use external_domain_broker.Tasks.Iam.Deletes.{Deletes}
use external_domain_broker.Commands.Duplicates.{
  is_duplicate, duplicates_of, insert_count, count_each,
}

-- A row of the table.
abbrev pub In : ServiceInstance → List ServiceInstance → Type 0
In i [] = ⊥
In i (j ∷ rows) = (i ≡ j) ⊎ In i rows

-- The certificate is stored, of an instance that is stored with a current certificate, and is another.
pub record IsOld (t : Tables) (c : Certificate) : Type 0 where
  pub owner : ServiceInstance
  pub current : ℕ
  pub stored : In owner t.instances
  pub is_row : IsRow c t.certificates
  pub of_instance : c.service_instance_id ≡ owner.id
  pub has_current : owner.current_certificate_id ≡ some current
  pub is_another : (current == c.id) ≡ false

-- `P` is kept by looking at listeners and certificates, and by removing a certificate for which `A`
-- holds from a listener and deleting it in IAM.
pub record Spares {W : Type 0} (lb : LoadBalancers W) (iam : Iam W) (P : W → Type 0)
    (A : Certificate → Type 0) : Type 0 where
  pub certificates : Deletes iam P A (λ name w. Unit)
  pub describes : (l : String) (w : W) → P w → P ((lb.describe_listener_certificates l w).1)
  pub removes :
      (c : Certificate) (l : String) (w : W)
      → A c
      → P w
      → P ((lb.remove_listener_certificates (str l) c.iam_server_certificate_arn w).1)

old_duplicate :
    (t : Tables) (i : ServiceInstance) (c : Certificate) (o : Option ℕ)
    → In i t.instances
    → IsRow c t.certificates
    → i.current_certificate_id ≡ o
    → (c.service_instance_id == i.id && elim o [ none ↦ false | some id ↦ not (id == c.id) ]) ≡ true
    → IsOld t c
old_duplicate t i c none m r e h = absurd (ground arith)
old_duplicate t i c (some id) m r e h = record {
  owner = i;
  current = id;
  stored = m;
  is_row = r;
  of_instance = (eq_iff c.service_instance_id i.id).0 (ground arith);
  has_current = e;
  is_another = ground arith;
}

pub duplicates_of-Old :
    (t : Tables) (i : ServiceInstance) (cs : List Certificate)
    → In i t.instances
    → ((c : Certificate) → IsRow c cs → IsRow c t.certificates)
    → All (IsOld t) (duplicates_of i cs)
unfolding duplicates_of is_duplicate
duplicates_of-Old t i cs m k =
    filter-IsRow (IsOld t) (is_duplicate i) cs
      λ c r h. old_duplicate t i c i.current_certificate_id m (k c r) refl h

-- Every instance that is counted is one of the table.
abbrev pub Counted : List ServiceInstance → List (ServiceInstance × ℕ) → Type 0
Counted rows = All (λ (x : ServiceInstance × ℕ). In (x.0) rows)

insert_count-Counted :
    (rows : List ServiceInstance) (x : ServiceInstance × ℕ) (l : List (ServiceInstance × ℕ))
    → In (x.0) rows
    → Counted rows l
    → Counted rows (insert_count x l)
unfolding insert_count
insert_count-Counted rows x [] m h = (m, tt)
insert_count-Counted rows x (y ∷ l) m (k, h) =
    split (leb (y.1) (x.1)) (insert_count-Counted rows x l m h)
  where
    split :
        (b : Bool)
        → Counted rows (insert_count x l)
        → Counted rows (if b then x ∷ y ∷ l else y ∷ insert_count x l)
    split true rest = (m, (k, h))
    split false rest = (k, rest)

wider :
    (rows : List ServiceInstance) (j : ServiceInstance) (l : List (ServiceInstance × ℕ))
    → Counted rows l
    → Counted (j ∷ rows) l
wider rows j [] h = tt
wider rows j (x ∷ l) (m, h) = (inr m, wider rows j l h)

pub count_each-Counted :
    (kind : InstanceType) (cs : List Certificate) (rows : List ServiceInstance)
    → Counted rows (count_each kind cs rows)
unfolding count_each
count_each-Counted kind cs [] = tt
count_each-Counted kind cs (i ∷ rows) =
    split (same_type i.instance_type kind && not (leb (length (duplicates_of i cs)) 0))
      (wider rows i (count_each kind cs rows) (count_each-Counted kind cs rows))
  where
    split :
        (b : Bool)
        → Counted (i ∷ rows) (count_each kind cs rows)
        → Counted (i ∷ rows) (
            if b
            then insert_count (i, length (duplicates_of i cs)) (count_each kind cs rows)
            else count_each kind cs rows)
    split true rest =
        insert_count-Counted (i ∷ rows) (i, _) (count_each kind cs rows) (inl refl) rest
    split false rest = rest
