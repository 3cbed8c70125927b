-- ===== src/Provisioning/Registry.antt =====
-- The connectors of the engine, by app: `connectors` of the other files is `connector_of` of a
-- registry. A Go map is a list of pairs, of which the first with a key counts.
use freecloud.Prelude.{
  ℕ, Bool, true, false, String, str_eq, eq_iff, List, [], ◌∷◌, Option, none, some, is_some, length,
  if◌then◌else◌, ◌≡◌, refl, sym, ap, ◌∙◌, Bool-cases, inl, inr,
}
use freecloud.Provisioning.Table.{Connector}

abbrev pub Registry : Type 0
Registry = List (String × Connector)

-- `connector`.
unfoldable pub connector_of : Registry → (app : String) → Option Connector
connector_of [] app = none
connector_of ((a, c) ∷ reg) app = if str_eq a app then some c else connector_of reg app

-- `RegisterConnector`.
unfoldable pub register_connector : (app : String) → Connector → Registry → Registry
register_connector app c [] = (app, c) ∷ []
register_connector app c ((a, c') ∷ reg) =
    if str_eq a app then (a, c) ∷ reg else (a, c') ∷ register_connector app c reg

-- `ReplaceConnectors`.
abbrev pub replace_connectors : (connectors : Registry) → Registry → Registry
replace_connectors connectors reg = connectors

-- `HasConnector`.
abbrev pub has_connector : (app : String) → Registry → Bool
has_connector app reg = is_some (connector_of reg app)

-- `ConnectorCount`.
abbrev pub connector_count : Registry → ℕ
connector_count = length

not_same : (app a : String) → str_eq a app ≡ false → str_eq app a ≡ false
not_same app a differs = elim (Bool-cases (str_eq app a)) [
  | inl same ↦
      absurd (
        let x : true ≡ false = sym ((eq_iff a app).1 (sym ((eq_iff app a).0 same))) ∙ differs in cc)
  | inr other ↦ other
]

-- An app that is registered has the connector that it was registered with, and the others have theirs.
connector_of-register_connector :
    (app : String) (c : Connector) (reg : Registry) (other : String)
    → connector_of (register_connector app c reg) other
      ≡ (if str_eq app other then some c else connector_of reg other)
unfolding connector_of register_connector
connector_of-register_connector app c [] other = refl
connector_of-register_connector app c ((a, c') ∷ reg) other = elim (Bool-cases (str_eq a app)) [
  | inl same ↦
      let named = ap (λ x. str_eq x other) (sym ((eq_iff a app).0 same)) in
      elim (Bool-cases (str_eq a other)) [
        | inl here ↦ rw (same, named, here) refl
        | inr past ↦ rw (same, named, past) refl
      ]
  | inr differs ↦ elim (Bool-cases (str_eq a other)) [
    | inl here ↦
        let apart =
          ap (λ x. str_eq app x) (sym ((eq_iff a other).0 here)) ∙ not_same app a differs in
        rw (differs, here, apart) refl
    | inr past ↦ rw (differs, past) (connector_of-register_connector app c reg other)
  ]
]
