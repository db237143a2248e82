-- ===== src/Json/Dicts.antt =====
-- Dictionaries and lists of JSON values that are changed in place: `d[k] = v`, `d.pop(k, None)`,
-- `d[k][j] = v`.
use external_domain_broker.Prelude.{
  ℕ, String, string_eq, ◌==◌, eq_iff, not, none, some, List, [], ◌∷◌, length, Result, ok, err,
  type_error, attribute_error, index_error, lookup, if◌then◌else◌, ◌>>=◌, ◌≡◌, refl, arith, filter,
}
use external_domain_broker.Json.{
  Json, arr, obj, nil, cons, Fields, end, field, Params, items, fields, item,
}

-- `d[k] = v`, also `d.update({k: v})`: a key that is there keeps its place.
unfoldable pub put : String → Json → Params → Params
put k v [] = (k, v) ∷ []
put k v ((j, u) ∷ d) = let rest = put k v d in if j == k then (k, v) ∷ d else (j, u) ∷ rest

-- `d.pop(k, None)`
unfoldable pub popped : String → Params → Params
unfolding filter
popped k = filter λ (e : String × Json). not (e.0 == k)

abbrev pub fields_of : Params → Fields
fields_of [] = end
fields_of ((k, v) ∷ d) = field k v (fields_of d)

abbrev pub dict : Params → Json
dict d = obj (fields_of d)

-- A value that is used as a dictionary with text keys.
abbrev pub as_dict : Json → Result Params
as_dict (obj fs) = ok (fields fs)
as_dict _ = err type_error

-- A value that a method of `dict` is called on.
abbrev pub as_mapping : Json → Result Params
as_mapping (obj fs) = ok (fields fs)
as_mapping _ = err attribute_error

-- A list, whose items are read.
abbrev pub as_list : Json → Result (List Json)
as_list (arr xs) = ok (items xs)
as_list _ = err type_error

-- `v[k]`
unfoldable pub subscript : String → Json → Result Json
unfolding item
subscript k v = do d ← as_dict v; item k d

-- `v[k] = u`
unfoldable pub assigned : String → Json → Json → Result Json
unfolding put
assigned k u v = do d ← as_dict v; ok (dict (put k u d))

-- A change of the object `v[k]`.
unfoldable pub changed_at : String → (Json → Result Json) → Json → Result Json
unfolding item put
changed_at k f v = do d ← as_dict v; u ← item k d; u' ← f u; ok (dict (put k u' d))

-- A change of the object `v[0]`.
abbrev pub changed_first : (Json → Result Json) → Json → Result Json
changed_first f (arr (cons x xs)) = do y ← f x; ok (arr (cons y xs))
changed_first f (arr nil) = err index_error
changed_first f _ = err type_error

-- `len(v)` of a list or a dictionary
abbrev pub len : Json → Result ℕ
len (arr xs) = ok (length (items xs))
len (obj fs) = ok (length (fields fs))
len _ = err type_error

pub lookup-put :
    (j k : String) (v : Json) (d : Params)
    → lookup j (put k v d) ≡ (if k == j then some v else lookup j d)
unfolding put lookup
lookup-put j k v [] = refl
lookup-put j k v ((i, u) ∷ d) =
    ground (arith, lookup-put j k v d, eq_iff i k, eq_iff i j, eq_iff k j)

pub lookup-popped :
    (j k : String) (d : Params) → lookup j (popped k d) ≡ (if k == j then none else lookup j d)
unfolding popped lookup filter
lookup-popped j k [] = ground arith
lookup-popped j k ((i, u) ∷ d) =
    ground (arith, lookup-popped j k d, eq_iff i k, eq_iff i j, eq_iff k j)
