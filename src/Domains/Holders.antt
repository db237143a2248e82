-- ===== src/Domains/Holders.antt =====
-- Which instances hold a domain, in the tables of broker/models.py.
use external_domain_broker.Prelude.{
  String, string_eq, ◌==◌, ◌≡◌, refl, sym, ap, ◌∙◌, Bool, true, false, ◌&&◌, Option, none, some,
  List, [], ◌∷◌, ◌++◌, elem, filter, is_empty, ◌⊎◌, arith, eq_iff, Bool-cases, inl, inr,
}
use external_domain_broker.Models.{ServiceInstance, InstanceType, find, write, set_type}
use external_domain_broker.Domains.Unique.{is_live, holders, positive, taken}

-- The instance with the id `a` is not deactivated, and has the domain `d`.
unfoldable pub holds : String → String → List ServiceInstance → Bool
unfolding find
holds a d rows = elim (find a rows) [ none ↦ false | some i ↦ is_live i && elem d i.domain_names ]

-- No two instances that are not deactivated have a domain in common.
pub record IsExclusive (rows : List ServiceInstance) : Type 0 where
  pub one_holder : (d a b : String) → holds a d rows ≡ true → holds b d rows ≡ true → a ≡ b

-- No instance but `i` itself holds one of the domains of `i`.
pub record Fits (rows : List ServiceInstance) (i : ServiceInstance) : Type 0 where
  pub alone : (d a : String) → elem d i.domain_names ≡ true → holds a d rows ≡ true → a ≡ i.id

holders-other :
    (ignored d a : String) (rows : List ServiceInstance)
    → positive (holders (some ignored) d rows) ≡ false
    → holds a d rows ≡ true
    → a ≡ ignored
unfolding holders holds
holders-other ignored d a [] h k = cc
holders-other ignored d a (i ∷ rows) h k =
    ground (arith, holders-other ignored d a rows, eq_iff i.id a, eq_iff i.id ignored)

holders-none :
    (d a : String) (rows : List ServiceInstance)
    → positive (holders none d rows) ≡ false
    → holds a d rows ≡ false
unfolding holders holds
holders-none d a [] h = refl
holders-none d a (i ∷ rows) h = ground (arith, holders-none d a rows)

taken_none :
    (ignored : Option String) (rows : List ServiceInstance) (d : String) (ds : List String)
    → is_empty (taken ignored rows ds) ≡ true
    → elem d ds ≡ true
    → positive (holders ignored d rows) ≡ false
unfolding taken filter elem
taken_none ignored rows d [] h k = cc
taken_none ignored rows d (e ∷ ds) h k =
    ground
      (arith, taken_none ignored rows d ds, eq_iff e d, ap (λ x. positive (holders ignored x rows)))

-- The validation of new domains for the instance `ignored`.
pub alone_of_taken :
    (ignored : String) (rows : List ServiceInstance) (d a : String) (ds : List String)
    → is_empty (taken (some ignored) rows ds) ≡ true
    → elem d ds ≡ true
    → holds a d rows ≡ true
    → a ≡ ignored
alone_of_taken ignored rows d a ds h k held =
    holders-other ignored d a rows (taken_none (some ignored) rows d ds h k) held

pub unheld_of_taken :
    (rows : List ServiceInstance) (d a : String) (ds : List String)
    → is_empty (taken none rows ds) ≡ true
    → elem d ds ≡ true
    → holds a d rows ≡ false
unheld_of_taken rows d a ds h k = holders-none d a rows (taken_none none rows d ds h k)

pub find-id :
    (a : String) (rows : List ServiceInstance) (i : ServiceInstance)
    → find a rows ≡ some i
    → i.id ≡ a
unfolding find
find-id a [] i h = cc
find-id a (j ∷ rows) i h = ground (arith, find-id a rows i, eq_iff j.id a)

pub find-write :
    (a : String) (j : ServiceInstance) (rows : List ServiceInstance)
    → (find a (write j rows) ≡ find a rows) ⊎ ((find a (write j rows) ≡ some j) × (j.id ≡ a))
unfolding find write
find-write a j [] = inl refl
find-write a j (i ∷ rows) =
    ground (arith, find-write a j rows, eq_iff i.id a, eq_iff i.id j.id, eq_iff j.id a)

pub find-written :
    (a : String) (j : ServiceInstance) (rows : List ServiceInstance) (i : ServiceInstance)
    → j.id ≡ a
    → find a rows ≡ some i
    → find a (write j rows) ≡ some j
unfolding find write
find-written a j [] i e h = cc
find-written a j (k ∷ rows) i e h =
    ground (arith, find-written a j rows i, eq_iff k.id a, eq_iff k.id j.id, eq_iff j.id a)

holds-write :
    (a d : String) (j : ServiceInstance) (rows : List ServiceInstance)
    → holds a d (write j rows) ≡ true
    → (holds a d rows ≡ true) ⊎ ((a ≡ j.id) × (elem d j.domain_names ≡ true))
unfolding holds
holds-write a d j rows h = elim (find-write a j rows) [
  | inl same ↦ inl (ground arith)
  | inr (new, e) ↦ inr (sym e, ground arith)
]

pub write-IsExclusive :
    (j : ServiceInstance) (rows : List ServiceInstance)
    → IsExclusive rows
    → Fits rows j
    → IsExclusive (write j rows)
write-IsExclusive j rows x f = record {
  one_holder = λ d a b h k. elim (holds-write a d j rows h) [
    | inl old ↦ elim (holds-write b d j rows k) [
      | inl old' ↦ x.one_holder d a b old old'
      | inr (e, new) ↦ f.alone d a new old ∙ sym e
    ]
    | inr (e, new) ↦ elim (holds-write b d j rows k) [
      | inl old' ↦ e ∙ sym (f.alone d b new old')
      | inr (e', new') ↦ e ∙ sym e'
    ]
  ];
}

-- A write of the row itself changes nothing of who else holds its domains.
pub Fits-write :
    (i j : ServiceInstance) (rows : List ServiceInstance)
    → i.id ≡ j.id
    → Fits rows i
    → Fits (write j rows) i
Fits-write i j rows e f = record {
  alone = λ d a k h. elim (holds-write a d j rows h) [
    | inl old ↦ f.alone d a k old
    | inr (same, _) ↦ same ∙ sym e
  ];
}

not_both : (b : Bool) → b ≡ true → b ≡ false → ⊥
not_both b h k = cc

holds-append :
    (a d : String) (rows : List ServiceInstance) (j : ServiceInstance)
    → holds a d (rows ++ j ∷ []) ≡ true
    → (holds a d rows ≡ true) ⊎ ((a ≡ j.id) × (elem d j.domain_names ≡ true))
unfolding holds find
holds-append a d [] j h = ground (arith, eq_iff j.id a)
holds-append a d (i ∷ rows) j h = ground (arith, holds-append a d rows j)

pub append-IsExclusive :
    (j : ServiceInstance) (rows : List ServiceInstance)
    → IsExclusive rows
    → ((d a : String) → elem d j.domain_names ≡ true → holds a d rows ≡ false)
    → IsExclusive (rows ++ j ∷ [])
append-IsExclusive j rows x f = record {
  one_holder = λ d a b h k. elim (holds-append a d rows j h) [
    | inl old ↦ elim (holds-append b d rows j k) [
      | inl old' ↦ x.one_holder d a b old old'
      | inr (e, new) ↦ absurd (not_both (holds a d rows) old (f d a new))
    ]
    | inr (e, new) ↦ elim (holds-append b d rows j k) [
      | inl old' ↦ absurd (not_both (holds b d rows) old' (f d b new))
      | inr (e', new') ↦ e ∙ sym e'
    ]
  ];
}

holds-set_type :
    (a d id : String) (kind : InstanceType) (rows : List ServiceInstance)
    → holds a d (set_type id kind rows) ≡ holds a d rows
unfolding holds find set_type
holds-set_type a d id kind [] = refl
holds-set_type a d id kind (i ∷ rows) = ground (arith, holds-set_type a d id kind rows)

pub set_type-IsExclusive :
    (id : String) (kind : InstanceType) (rows : List ServiceInstance)
    → IsExclusive rows
    → IsExclusive (set_type id kind rows)
set_type-IsExclusive id kind rows x = record {
  one_holder = λ d a b h k.
      x.one_holder d a b (sym (holds-set_type a d id kind rows) ∙ h)
        (sym (holds-set_type b d id kind rows) ∙ k);
}

-- A row that is stored and not deactivated fits.
pub Fits-stored :
    (rows : List ServiceInstance) (id : String) (i : ServiceInstance)
    → IsExclusive rows
    → find id rows ≡ some i
    → is_live i ≡ true
    → Fits rows i
unfolding holds
Fits-stored rows id i x h live = record {
  alone = λ d a k held. x.one_holder d a id held (ground arith) ∙ sym (find-id id rows i h);
}

pub find-set_type :
    (id : String) (kind : InstanceType) (rows : List ServiceInstance) (j : ServiceInstance)
    → find id (set_type id kind rows) ≡ some j
    → (i : ServiceInstance) × (find id rows ≡ some i) × (is_live j ≡ is_live i)
unfolding find set_type
find-set_type id kind [] j h = cc
find-set_type id kind (i ∷ rows) j h = elim (Bool-cases (i.id == id)) [
  | inl e ↦ (i, ground arith, ground arith)
  | inr e ↦ (let (k, f, l) = find-set_type id kind rows j (ground arith) in (k, ground arith, l))
]

-- A row that is deactivated takes its domains with it, and gives nobody else any.
pub holds-write_gone :
    (a d : String) (j : ServiceInstance) (rows : List ServiceInstance)
    → is_live j ≡ false
    → holds a d (write j rows) ≡ true
    → holds a d rows ≡ true
unfolding holds
holds-write_gone a d j rows gone h = elim (find-write a j rows) [
  | inl same ↦ ground arith
  | inr (new, e) ↦ absurd (ground arith)
]
