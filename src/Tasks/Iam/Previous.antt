-- ===== src/Tasks/Iam/Previous.antt =====
-- The previous certificates of an instance.
use external_domain_broker.Prelude.{
  ◌⊎◌, inl, inr, ℕ, string_eq, nat_eq, ◌==◌, Bool, true, false, List, [], ◌∷◌, ◌≡◌, ◌↔◌, eq_iff,
  refl, subst, ◌∙◌, arith, filter, filter-tested, All, ap, not, ◌&&◌, Option, none, some,
  if◌then◌else◌,
}
use external_domain_broker.Models.{ServiceInstance, Certificate}
use external_domain_broker.Tasks.Work.{find_certificate}
use external_domain_broker.Tasks.Alb.{previous_certificates}
use external_domain_broker.Tasks.Iam.{is_kept}

clash : {x : Bool} → x ≡ false → x ≡ true → ⊥
clash h k = ground arith

some_same : {x y : Certificate} → some x ≡ some y → x ≡ y
some_same {x = x} h = ap (λ o. elim o [ none ↦ x | some v ↦ v ]) h

-- The certificate is of the instance and not its current one.
pub record IsPrevious (i : ServiceInstance) (c : Certificate) : Type 0 where
  pub of_instance : c.service_instance_id ≡ i.id
  pub is_not_current : (id : ℕ) → i.current_certificate_id ≡ some id → (c.id == id) ≡ false

is_previous : ServiceInstance → Certificate → Bool
is_previous i c =
    c.service_instance_id == i.id
    && elim i.current_certificate_id [ none ↦ true | some id ↦ not (c.id == id) ]

is_previous_iff :
    (i : ServiceInstance) (c : Certificate) → (is_previous i c ≡ true) ↔ IsPrevious i c
unfolding is_previous
is_previous_iff i c = (
  λ h. record {
    of_instance = (eq_iff c.service_instance_id i.id).0 (ground arith);
    is_not_current = λ id e. ground (arith, e);
  },
  λ p.
      both i.current_certificate_id refl ((eq_iff c.service_instance_id i.id).1 p.of_instance)
        p.is_not_current,
)
  where
    both :
        (o : Option ℕ)
        → i.current_certificate_id ≡ o
        → (c.service_instance_id == i.id) ≡ true
        → ((id : ℕ) → i.current_certificate_id ≡ some id → (c.id == id) ≡ false)
        → (c.service_instance_id == i.id && elim o [ none ↦ true | some id ↦ not (c.id == id) ])
          ≡ true
    both none e h k = ground (arith, h)
    both (some id) e h k = ground (arith, h, k id e)

-- A row of the table of certificates.
abbrev pub IsRow : Certificate → List Certificate → Type 0
IsRow c [] = ⊥
IsRow c (d ∷ cs) = (c ≡ d) ⊎ IsRow c cs

pub IsRow-filter :
    (c : Certificate) (test : Certificate → Bool) (cs : List Certificate)
    → IsRow c (filter test cs)
    → IsRow c cs
unfolding filter
IsRow-filter c test [] h = h
IsRow-filter c test (d ∷ cs) h = split (test d) h (IsRow-filter c test cs)
  where
    split :
        (b : Bool)
        → IsRow c (if b then d ∷ filter test cs else filter test cs)
        → (IsRow c (filter test cs) → IsRow c cs)
        → IsRow c (d ∷ cs)
    split true (inl e) k = inl e
    split true (inr h) k = inr (k h)
    split false h k = inr (k h)

-- What holds of the rows that pass a test.
pub filter-IsRow :
    (P : Certificate → Type 0) (test : Certificate → Bool) (cs : List Certificate)
    → ((c : Certificate) → IsRow c cs → test c ≡ true → P c)
    → All P (filter test cs)
unfolding filter
filter-IsRow P test [] k = tt
filter-IsRow P test (d ∷ cs) k =
    split (test d) (k d (inl refl)) (filter-IsRow P test cs λ c h e. k c (inr h) e)
  where
    split :
        (b : Bool)
        → (b ≡ true → P d)
        → All P (filter test cs)
        → All P (if b then d ∷ filter test cs else filter test cs)
    split true p h = (p refl, h)
    split false p h = h

pub previous_certificates-IsRow :
    (i : ServiceInstance) (cs : List Certificate)
    → All (λ (c : Certificate). IsPrevious i c × IsRow c cs) (previous_certificates i cs)
unfolding previous_certificates is_previous
previous_certificates-IsRow i cs =
    filter-IsRow (λ (c : Certificate). IsPrevious i c × IsRow c cs) (is_previous i) cs
      λ c m h. ((is_previous_iff i c).0 h, m)

-- What holds of the previous certificates, for each certificate.
pub each-IsPrevious :
    (i : ServiceInstance) (Q : Certificate → Type 0) (cs : List Certificate)
    → All Q (previous_certificates i cs)
    → All (λ (c : Certificate). IsPrevious i c → Q c) cs
unfolding previous_certificates is_previous filter
each-IsPrevious i Q [] h = tt
each-IsPrevious i Q (c ∷ cs) h = split (is_previous i c) refl h (each-IsPrevious i Q cs)
  where
    split :
        (b : Bool)
        → is_previous i c ≡ b
        → All Q (if b then c ∷ previous_certificates i cs else previous_certificates i cs)
        → (All Q (previous_certificates i cs) → All (λ (c : Certificate). IsPrevious i c → Q c) cs)
        → (IsPrevious i c → Q c) × All (λ (c : Certificate). IsPrevious i c → Q c) cs
    split true e (q, rest) k = (λ p. q, k rest)
    split false e rest k = (λ p. absurd (clash e ((is_previous_iff i c).1 p)), k rest)

-- The certificates that are kept are not previous ones.
pub kept_are :
    (i : ServiceInstance) (cs : List Certificate)
    → All (λ (c : Certificate). IsPrevious i c → ⊥) (filter (is_kept i) cs)
unfolding is_previous
kept_are i cs =
    filter-tested (λ (c : Certificate). IsPrevious i c → ⊥) (is_kept i) cs
      λ c h p. clash (ground (arith, h)) ((is_previous_iff i c).1 p)

-- A certificate that is not a previous one is found as before.
pub find_rest :
    (i : ServiceInstance) (id : ℕ) (c : Certificate) (cs : List Certificate)
    → find_certificate id cs ≡ some c
    → (IsPrevious i c → ⊥)
    → find_certificate id (filter (is_kept i) cs) ≡ some c
unfolding find_certificate filter is_previous
find_rest i id c [] h k = absurd (ground arith)
find_rest i id c (d ∷ cs) h k =
    split (is_previous i d) refl (d.id == id) refl h (find_rest i id c cs)
  where
    split :
        (b : Bool)
        → is_previous i d ≡ b
        → (x : Bool) → (d.id == id) ≡ x
        → (if x then some d else find_certificate id cs) ≡ some c
        → (find_certificate id cs ≡ some c
            → (IsPrevious i c → ⊥)
            → find_certificate id (filter (is_kept i) cs) ≡ some c)
        → find_certificate id (if not b then d ∷ filter (is_kept i) cs else filter (is_kept i) cs)
          ≡ some c
    split true e true f g rest =
        absurd (k (subst (IsPrevious i) (some_same g) ((is_previous_iff i d).0 e)))
    split true e false f g rest = rest g k
    split false e true f g rest =
        ap (λ (b : Bool). if b then some d else find_certificate id (filter (is_kept i) cs)) f ∙ g
    split false e false f g rest =
        ap (λ (b : Bool). if b then some d else find_certificate id (filter (is_kept i) cs)) f
        ∙ rest g k
