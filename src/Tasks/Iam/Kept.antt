-- ===== src/Tasks/Iam/Kept.antt =====
-- The certificates that `_delete_previous_server_ceritficate` of broker/tasks/iam.py leaves.
use external_domain_broker.Prelude.{
  ℕ, string_eq, nat_eq, ◌==◌, Bool, true, false, List, [], ◌∷◌, integrity_error, ◌≡◌, refl, sym,
  subst, arith, any, filter, All, some, Bool-cases, inl, inr, nat_beq_iff,
}
use external_domain_broker.Json.{Json}
use external_domain_broker.Tasks.Iam.Previous.{
  IsRow, IsPrevious, previous_certificates-IsRow, each-IsPrevious, kept_are, find_rest,
}
use external_domain_broker.Tasks.Iam.Deletes.{
  Deletes, Untouched, Gone, AllGone, delete_certificates-Ends,
}
use external_domain_broker.Models.{ServiceInstance, Certificate}
use external_domain_broker.Tasks.Work.{Work, Tables, ◌>>=◌, find_certificate, tables_of}
use external_domain_broker.Tasks.Rules.{Ends, ok-Ends, raise-Ends, choice-Ends, bind-Ends}
use external_domain_broker.Tasks.Alb.{previous_certificates}
use external_domain_broker.Tasks.Iam.{
  Iam, refers, is_kept, delete_certificates, remove_certificates, without_previous, delete_previous,
}

clash : {x : Bool} → x ≡ false → x ≡ true → ⊥
clash h k = ground arith

-- An id that nothing refers to is another than one that something refers to.
pub other_id :
    (a b : ℕ) (rows : List ServiceInstance)
    → any (refers a) rows ≡ false
    → any (refers b) rows ≡ true
    → (a == b) ≡ false
other_id a b rows h k = elim (Bool-cases (a == b)) [
  | inl e ↦ absurd (clash (subst (λ (n : ℕ). any (refers n) rows ≡ false) (same a b e) h) k)
  | inr n ↦ n
]
  where
    same : (a b : ℕ) → (a == b) ≡ true → a ≡ b
    same a b e = (nat_beq_iff a b).0 e

-- A certificate that a row refers to is found as before.
find_kept :
    (i : ServiceInstance) (rows : List ServiceInstance) (id : ℕ) (cs : List Certificate)
    → any (λ (c : Certificate). any (refers c.id) rows) (previous_certificates i cs) ≡ false
    → any (refers id) rows ≡ true
    → find_certificate id (filter (is_kept i) cs) ≡ find_certificate id cs
unfolding find_certificate previous_certificates filter any
find_kept i rows id [] h k = refl
find_kept i rows id (c ∷ cs) h k =
    let rest = find_kept i rows id cs in
    let other = other_id c.id id rows in ground (arith, rest, other)

-- Of the instance's certificates the current one is left, of the others all; and what a row refers to
-- is there as before.
pub record HasKept {W : Type 0} (G : Json → W → Type 0) (i : ServiceInstance) (t : Tables)
    (u : Work W) : Type 0 where
  pub only : All (λ (c : Certificate). IsPrevious i c → ⊥) u.tables.certificates
  pub others :
      (id : ℕ) (c : Certificate)
      → find_certificate id t.certificates ≡ some c
      → (IsPrevious i c → ⊥)
      → find_certificate id u.tables.certificates ≡ some c
  pub instances : u.tables.instances ≡ t.instances
  pub referred :
      (id : ℕ)
      → any (refers id) t.instances ≡ true
      → find_certificate id u.tables.certificates ≡ find_certificate id t.certificates
  -- each previous certificate is gone from IAM
  pub gone :
      All
        (λ (c : Certificate). IsPrevious i c → G c.iam_server_certificate_name u.world)
        t.certificates

-- A stored certificate of the instance that is not its current one.
abbrev pub IsDeletable : ServiceInstance → Tables → Certificate → Type 0
IsDeletable i t c = IsPrevious i c × IsRow c t.certificates

module _ {W : Type 0} (iam : Iam W) (P : W → Type 0) (G : Json → W → Type 0) (i : ServiceInstance)
    (begin : Work W) (law : Deletes iam P (IsDeletable i begin.tables) G) where
  abbrev Same : Tables → Work W → Type 0
  Same t = Untouched iam P (IsDeletable i begin.tables) G law t

  abbrev Deleted : Tables → Unit {0} → Work W → Type 0
  Deleted t a u = P u.world × HasKept G i t u

  remove_certificates-Ends :
      (s : Work W)
      → P s.world
      → All
          (λ (c : Certificate). G c.iam_server_certificate_name s.world)
          (previous_certificates i s.tables.certificates)
      → Ends (Same s.tables) (Deleted s.tables) (remove_certificates iam i s)
  unfolding remove_certificates without_previous
  remove_certificates-Ends s p g =
      let cs = s.tables.certificates in
      choice-Ends (Same s.tables) (Deleted s.tables)
        (any (λ (c : Certificate). any (refers c.id) s.tables.instances)
          (previous_certificates i cs))
        _ _ s (λ _. raise-Ends (Same s.tables) (Deleted s.tables) integrity_error s (refl, p))
        λ n. ok-Ends (Same s.tables) (Deleted s.tables) tt _ (
          p,
          record {
            only = kept_are i cs;
            others = λ id c h k. find_rest i id c cs h k;
            instances = refl;
            referred = λ id k. find_kept i s.tables.instances id cs n k;
            gone =
                each-IsPrevious i (λ (c : Certificate). G c.iam_server_certificate_name s.world) cs
                  g;
          },
        )

  -- Let `P` be kept by looking at a certificate in IAM and by deleting a stored one of the instance
  -- that is not its current one. If `P` holds, it holds however the task ends: no other certificate is deleted in
  -- IAM. If the task returns, each certificate of the instance that is not the current one is gone
  -- from IAM and from the table, every other certificate, and every one that a row refers to, is found
  -- as before; if it raises, the tables are as before.
  pub delete_previous-Ends :
      P begin.world
      → Ends
          (λ u. (u.tables ≡ begin.tables) × P u.world)
          (λ a u. P u.world × HasKept G i begin.tables u)
          (delete_previous iam i begin)
  unfolding delete_previous tables_of ◌>>=◌
  delete_previous-Ends p =
      let t = begin.tables in
      let cs = previous_certificates i t.certificates in
      bind-Ends (Same t)
        (λ a u.
          Gone iam P (IsDeletable i begin.tables) G law t [] a u
          × AllGone iam P (IsDeletable i begin.tables) G law t cs u.world)
        (Deleted t) (delete_certificates iam cs) (λ _. remove_certificates iam i) begin
        (delete_certificates-Ends iam P (IsDeletable i begin.tables) G law t cs [] begin
          (previous_certificates-IsRow i t.certificates) ((refl, p), tt))
        λ a u (((q, r), _), g).
          subst (λ x. Ends (Same x) (Deleted x) (remove_certificates iam i u)) q
            (remove_certificates-Ends u r (
              subst
                (λ (x : Tables).
                  All (λ (c : Certificate). G c.iam_server_certificate_name u.world)
                    (previous_certificates i x.certificates))
                (sym q) g))
