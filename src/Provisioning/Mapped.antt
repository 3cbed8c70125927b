-- ===== src/Provisioning/Mapped.antt =====
-- What `ApplyAttributeMap` sends under which name.
use freecloud.Prelude.{
  true, String, str_eq, eq_iff, [], ◌∷◌, ◌++◌, Option, none, some, if◌then◌else◌, ◌≡◌, refl, sym,
  ap, Bool-cases, inl, inr, Option-cases,
}
use freecloud.Provisioning.Table.{ProvisionableUser}
use freecloud.Provisioning.Attributes.{
  Fields, lookup, defaults, remote_key, apply_fields, apply_attribute_map,
}

abbrev or_else : Option String → Option String → Option String
or_else (some v) w = some v
or_else none w = w

-- The value of the first field whose key in the remote app is `key`.
unfoldable pub value_at : (attr_map : Fields) → (key : String) → Fields → Option String
unfolding remote_key
value_at attr_map key [] = none
value_at attr_map key ((field, value) ∷ todo) =
    if str_eq (remote_key attr_map field) key then some value else value_at attr_map key todo

lookup-append :
    (key : String) (xs ys : Fields)
    → lookup key (xs ++ ys) ≡ or_else (lookup key xs) (lookup key ys)
unfolding lookup
lookup-append key [] ys = refl
lookup-append key ((k, v) ∷ xs) ys = elim (Bool-cases (str_eq k key)) [
  | inl same ↦ rw same refl
  | inr other ↦ rw other (lookup-append key xs ys)
]

lookup_of_eq :
    (k key : String) (fields : Fields) → str_eq k key ≡ true → lookup k fields ≡ lookup key fields
lookup_of_eq k key fields same = ap (λ x. lookup x fields) ((eq_iff k key).0 same)

or_else-none : (o : Option String) → or_else o none ≡ o
or_else-none none = refl
or_else-none (some v) = refl

lookup-apply_fields :
    (attr_map : Fields) (key : String) (result todo : Fields)
    → lookup key (apply_fields attr_map result todo)
      ≡ or_else (lookup key result) (value_at attr_map key todo)
unfolding apply_fields value_at
lookup-apply_fields attr_map key result [] = elim (Option-cases (lookup key result)) [
  | inl absent ↦ rw absent refl
  | inr (v, found) ↦ rw found refl
]
lookup-apply_fields attr_map key result ((field, value) ∷ todo) =
    let k = remote_key attr_map field in
    elim (Option-cases (lookup k result)) [
      | inl free ↦
          rw
            (
              free,
              lookup-apply_fields attr_map key (result ++ (k, value) ∷ []) todo,
              lookup-append key result ((k, value) ∷ []),
            )
            (elim (Bool-cases (str_eq k key)) [
              | inl same ↦ rw (same, sym (lookup_of_eq k key result same), free) refl
              | inr other ↦ rw (other, or_else-none (lookup key result)) refl
            ])
      | inr (v, taken) ↦
          rw (taken, lookup-apply_fields attr_map key result todo)
            (elim (Bool-cases (str_eq k key)) [
              | inl same ↦ rw (same, sym (lookup_of_eq k key result same), taken) refl
              | inr other ↦ rw other refl
            ])
    ]

value_at-unmapped : (key : String) (fields : Fields) → value_at [] key fields ≡ lookup key fields
unfolding value_at lookup remote_key
value_at-unmapped key [] = refl
value_at-unmapped key ((field, value) ∷ fields) = rw (value_at-unmapped key fields) refl

-- Under each name the remote app gets the value of the first of the default fields, in their order,
-- that the map sends there, and nothing under any other name.
pub lookup-apply_attribute_map :
    (user : ProvisionableUser) (attr_map : Fields) (key : String)
    → lookup key (apply_attribute_map user attr_map) ≡ value_at attr_map key (defaults user)
unfolding apply_attribute_map
lookup-apply_attribute_map user [] key = sym (value_at-unmapped key (defaults user))
lookup-apply_attribute_map user (e ∷ attr_map) key =
    lookup-apply_fields (e ∷ attr_map) key [] (defaults user)
