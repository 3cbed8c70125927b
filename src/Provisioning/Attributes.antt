-- ===== src/Provisioning/Attributes.antt =====
-- `ApplyAttributeMap`. A Go map is a list of pairs, of which the first with a key counts.
use freecloud.Prelude.{
  String, str_eq, List, [], ◌∷◌, ◌++◌, Option, none, some, is_some, if◌then◌else◌,
}
use freecloud.Provisioning.Table.{ProvisionableUser}

abbrev pub Fields : Type 0
Fields = List (String × String)

unfoldable pub lookup : String → Fields → Option String
lookup key [] = none
lookup key ((k, v) ∷ fields) = if str_eq k key then some v else lookup key fields

-- The defaults in the order of `defaultAttributeFields`.
unfoldable pub defaults : ProvisionableUser → Fields
defaults user =
    ("department", user.department)
    ∷ ("familyName", user.last_name)
    ∷ ("givenName", user.first_name)
    ∷ ("userName", user.email)
    ∷ []

-- The key in the remote app: an entry of the map that is not empty, or the field itself.
unfoldable pub remote_key : (attr_map : Fields) → (field : String) → String
unfolding lookup
remote_key attr_map field = elim (lookup field attr_map) [
  | none ↦ field
  | some mapped ↦ if str_eq mapped "" then field else mapped
]

-- The loop over the default fields.
unfoldable pub apply_fields : (attr_map result todo : Fields) → Fields
unfolding lookup remote_key
apply_fields attr_map result [] = result
apply_fields attr_map result ((field, value) ∷ todo) =
    let key = remote_key attr_map field in
    apply_fields attr_map
      (if is_some (lookup key result) then result else (result ++ (key, value) ∷ [])) todo

-- `ApplyAttributeMap`.
unfoldable pub apply_attribute_map : ProvisionableUser → (attr_map : Fields) → Fields
unfolding defaults apply_fields
apply_attribute_map user [] = defaults user
apply_attribute_map user (e ∷ attr_map) = apply_fields (e ∷ attr_map) [] (defaults user)
