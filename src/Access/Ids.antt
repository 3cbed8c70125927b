-- ===== src/Access/Ids.antt =====
-- handlers/validators.go: which identifiers a request may name. Texts are ASCII; the length of a
-- text is that of its bytes.
use freecloud.Prelude.{
  ℕ, zero, suc, ◌+◌, ◌-◌, ◌*◌, Bool, true, false, ◌&&◌, ◌||◌, Bytes, codes, [], ◌∷◌, Option, none,
  some, eq_bytes, trim_space, has_prefix, contains_bytes, any, length, ltb, leb, ◌==◌,
  if◌then◌else◌,
}

pub data IdError : Type 0 where
  id_required too_long path_like hidden control_bearing not_uuid : IdError

-- `r < 0x20 || r == 0x7f`.
unfoldable pub is_control : ℕ → Bool
is_control c = ltb c 32 || c == 127

-- `strings.ContainsAny(id, "/\\") || strings.Contains(id, "..")`.
unfoldable pub is_path_like : Bytes → Bool
is_path_like id = any (λ c. c == b'/' || c == 92) id || contains_bytes id (codes "..")

-- What the validators of identifiers share: none is no error. `hidden_too` refuses a leading dot.
unfoldable pub check_id : (max : ℕ) → (hidden_too : Bool) → Bytes → Option IdError
unfolding is_control is_path_like
check_id max hidden_too id =
    if eq_bytes id []
    then some id_required
    else if ltb max (length id)
    then some too_long
    else if is_path_like id
    then some path_like
    else if hidden_too && has_prefix id (codes ".")
    then some hidden
    else if any is_control id
    then some control_bearing
    else none

-- `ValidatePolicyID`.
unfoldable pub validate_policy_id : Bytes → Option IdError
unfolding check_id
validate_policy_id id = check_id 128 false (trim_space id)

-- `ValidateHostID`.
unfoldable pub validate_host_id : Bytes → Option IdError
unfolding check_id
validate_host_id id = check_id 256 true (trim_space id)

-- `ValidateOpaqueID`, but for the name of the field in the text of the error.
unfoldable pub validate_opaque_id : Bytes → Option IdError
unfolding check_id
validate_opaque_id id = check_id 128 false (trim_space id)

-- `ValidateTeamDescription`, which does not trim.
unfoldable pub validate_team_description : Bytes → Option IdError
unfolding is_control
validate_team_description desc =
    if ltb 500 (length desc)
    then some too_long
    else if any is_control desc
    then some control_bearing
    else none

unfoldable pub is_hex_digit : ℕ → Bool
is_hex_digit c =
    (leb b'0' c && leb c b'9') || (leb b'a' c && leb c b'f') || (leb b'A' c && leb c b'F')

-- `n` hexadecimal digits, then the rest.
unfoldable pub hex_run : ℕ → (Bytes → Bool) → Bytes → Bool
unfolding is_hex_digit
hex_run zero k s = k s
hex_run (suc n) k [] = false
hex_run (suc n) k (c ∷ s) = let rest = hex_run n k s in is_hex_digit c && rest

unfoldable pub hyphen : (Bytes → Bool) → Bytes → Bool
hyphen k [] = false
hyphen k (c ∷ s) = (c == b'-') && k s

-- `uuidPattern`: 8, 4, 4, 4 and 12 digits.
unfoldable pub is_valid_uuid : Bytes → Bool
unfolding hex_run hyphen
is_valid_uuid = hex_run 8 (
    hyphen (
      hex_run 4
        (hyphen (hex_run 4 (hyphen (hex_run 4 (hyphen (hex_run 12 (λ s. eq_bytes s [])))))))))

-- `ValidateUserID`.
unfoldable pub validate_user_id : Bytes → Option IdError
unfolding check_id is_valid_uuid
validate_user_id raw =
    let id = trim_space raw in
    elim (check_id 64 false id) [
      | some e ↦ some e
      | none ↦ if is_valid_uuid id then none else some not_uuid
    ]

-- The loop of `ParsePositiveTeamID`: none is an error.
unfoldable pub team_digits : ℕ → Bytes → Option ℕ
team_digits n [] = some n
team_digits n (c ∷ s) =
    let rest = team_digits (n * 10 + (c - b'0')) s in
    if leb b'0' c && leb c b'9' then rest else none

-- `ParsePositiveTeamID`.
unfoldable pub parse_positive_team_id : Bytes → Option ℕ
unfolding team_digits
parse_positive_team_id raw =
    let s = trim_space raw in
    if eq_bytes s [] || ltb 9 (length s)
    then none
    else elim (team_digits 0 s) [ none ↦ none | some n ↦ if n == 0 then none else some n ]
