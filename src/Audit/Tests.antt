-- ===== src/Audit/Tests.antt =====
-- The audit chain at concrete rows, with a stand-in for SHA-256 that is never empty.
use freecloud.Prelude.{
  ℕ, zero, suc, Bool, false, Bytes, codes, eq_bytes, List, [], ◌∷◌, ◌≡◌, ◌≢◌, ◌↔◌, refl, arith,
  some, none, ◌⊎◌, map,
}
use freecloud.Prelude.Decimal.{decimal}
use freecloud.Audit.Hash.{compute_hash, canonical_injective}
use freecloud.Audit.Chain.{
  Engine, Row, Table, Entry, Details, no_details, Result, ok, err, expected_hash, write_entry,
  new_row, verify_chain, VerifyCall, WriteCall, VerifyResult, intact, chain_anchor,
}
use freecloud.Audit.Spec.{IsIntact, Linked}
use freecloud.Audit.Sound.{IsSound}
use freecloud.Audit.Verify.{verify_chain_iff}
use freecloud.Audit.Locate.{verify_chain_break, FirstBreak, start_hash}
use freecloud.Audit.Write.{write_entry-Appended, write_entry-IsSound, Appended}
use freecloud.Audit.Tamper.{head_commits, SameContent, Collision}
use freecloud.Audit.Retention.{PruneCall, prune, pruned}
use freecloud.Audit.Prune.{prune-IsSound, Timely}
use freecloud.Audit.Sifted.{prune-Pruned, Pruned}
use freecloud.Audit.Disorder.{pruned-breaks}

abbrev toy : Engine Bytes
toy = record { sha256_hex = λ b. 1 ∷ b; to_jsonb = some; jsonb_text = λ j. j }

nonempty : (b : Bytes) → toy.sha256_hex b ≢ []
nonempty b h = cc

abbrev no_write_fault : WriteCall → Bool
no_write_fault c = false

abbrev no_verify_fault : VerifyCall → Bool
no_verify_fault c = false

abbrev no_prune_fault : PruneCall → Bool
no_prune_fault c = false

abbrev entry : Entry
entry = record {
  org_id = codes "o";
  actor_id = codes "a";
  action = codes "x";
  target_type = codes "t";
  target_id = codes "i";
  details = no_details;
}

abbrev start : Table Bytes
start = record { rows = []; next_seq = 1; anchor = none }

start-IsSound : IsSound toy start
unfolding chain_anchor
start-IsSound = record {
  intact = record { linked = tt };
  ascending = tt;
  started = omega arith;
  below = tt;
  anchored = tt;
}

abbrev table_of : Result (Table Bytes) → Table Bytes
table_of (ok t) = t
table_of (err e) = start

abbrev verdict_of : Result VerifyResult → VerifyResult
verdict_of (ok r) = r
verdict_of (err e) = intact 0

abbrev first_of_result : Result (Table Bytes × ℕ) → Table Bytes
first_of_result (ok (t, n)) = t
first_of_result (err e) = start

abbrev one_row : Table Bytes
unfolding write_entry decimal compute_hash eq_bytes
one_row = table_of (write_entry toy no_write_fault 5 0 entry start)

abbrev two_rows : Table Bytes
unfolding write_entry decimal compute_hash eq_bytes
two_rows = table_of (write_entry toy no_write_fault 9 2 entry one_row)

one_row_written : write_entry toy no_write_fault 5 0 entry start ≡ ok one_row
unfolding write_entry decimal compute_hash eq_bytes
one_row_written = refl

write_entry-Appended_example : Appended toy entry 5 start one_row
write_entry-Appended_example =
    write_entry-Appended toy no_write_fault 5 0 entry start one_row one_row_written

write_entry-IsSound_example : IsSound toy one_row
write_entry-IsSound_example =
    write_entry-IsSound toy nonempty no_write_fault 5 0 entry start one_row one_row_written
      start-IsSound

two_rows_written : write_entry toy no_write_fault 9 2 entry one_row ≡ ok two_rows
unfolding write_entry decimal compute_hash eq_bytes
two_rows_written = refl

two_rows-IsSound : IsSound toy two_rows
two_rows-IsSound =
    write_entry-IsSound toy nonempty no_write_fault 9 2 entry one_row two_rows two_rows_written
      write_entry-IsSound_example

verify_chain_iff_example :
    (verify_chain toy no_verify_fault 0 two_rows ≡ ok (intact 2)) ↔ IsIntact toy two_rows
unfolding write_entry decimal compute_hash eq_bytes
verify_chain_iff_example = verify_chain_iff toy no_verify_fault 0 two_rows (λ c. refl)

two_rows_verified : verify_chain toy no_verify_fault 0 two_rows ≡ ok (intact 2)
two_rows_verified = verify_chain_iff_example.1 two_rows-IsSound.intact

-- One actor is rewritten.
abbrev tampered : Table Bytes
tampered = record two_rows {
  rows = map (λ (e : Row Bytes). record e { actor_id = codes "z" }) two_rows.rows;
}

abbrev verdict : VerifyResult
unfolding verify_chain write_entry decimal compute_hash eq_bytes expected_hash
verdict = verdict_of (verify_chain toy no_verify_fault 0 tampered)

tampered_verified : verify_chain toy no_verify_fault 0 tampered ≡ ok verdict
unfolding verify_chain write_entry decimal compute_hash eq_bytes expected_hash
tampered_verified = refl

verify_chain_break_example :
    FirstBreak toy
      (chain_anchor tampered.anchor)
      (start_hash (chain_anchor tampered.anchor))
      tampered.rows
      0
      verdict
unfolding verify_chain write_entry decimal compute_hash eq_bytes expected_hash
verify_chain_break_example =
    verify_chain_break toy no_verify_fault 0 tampered verdict tampered_verified refl

canonical_injective_example : ◌≡◌ {A = List Bytes} (codes "ab" ∷ []) (codes "ab" ∷ [])
canonical_injective_example = canonical_injective (codes "ab" ∷ []) (codes "ab" ∷ []) refl

two_rows-Linked : Linked toy [] two_rows.rows
unfolding write_entry decimal compute_hash eq_bytes chain_anchor
two_rows-Linked = two_rows-IsSound.intact.linked

head_commits_example :
    (◌≡◌ {A = Bytes} [] [] × SameContent toy two_rows.rows two_rows.rows) ⊎ Collision toy
head_commits_example =
    head_commits toy [] [] two_rows.rows two_rows.rows two_rows-Linked two_rows-Linked refl refl

abbrev describe : ℕ → ℕ → Details
describe n cutoff = no_details

abbrev after_prune : Table Bytes
unfolding prune write_entry decimal compute_hash eq_bytes
after_prune = first_of_result (prune toy no_prune_fault no_write_fault describe 14 0 7 two_rows)

pruned_two_rows :
    prune toy no_prune_fault no_write_fault describe 14 0 7 two_rows ≡ ok (after_prune, 1)
unfolding prune write_entry decimal compute_hash eq_bytes
pruned_two_rows = refl

prune-Pruned_example : Pruned toy describe 14 7 two_rows after_prune 1
prune-Pruned_example =
    prune-Pruned toy no_prune_fault no_write_fault describe 14 0 6 two_rows after_prune 1
      pruned_two_rows

two_rows-Timely : Timely 0 two_rows.rows
unfolding write_entry decimal compute_hash eq_bytes
two_rows-Timely = omega arith

prune-IsSound_example : IsSound toy after_prune
prune-IsSound_example =
    prune-IsSound toy nonempty no_prune_fault no_write_fault describe 14 0 7 0 two_rows after_prune
      1 two_rows-Timely pruned_two_rows two_rows-IsSound

-- The second of three rows is the oldest.
abbrev first_of_three : Table Bytes
unfolding write_entry decimal compute_hash eq_bytes
first_of_three = table_of (write_entry toy no_write_fault 9 0 entry start)

abbrev second_of_three : Table Bytes
unfolding write_entry decimal compute_hash eq_bytes
second_of_three = table_of (write_entry toy no_write_fault 5 0 entry first_of_three)

abbrev disordered : Table Bytes
unfolding write_entry decimal compute_hash eq_bytes
disordered = table_of (write_entry toy no_write_fault 9 0 entry second_of_three)

disordered-IsIntact : IsIntact toy disordered
unfolding verify_chain write_entry decimal compute_hash eq_bytes expected_hash
disordered-IsIntact = (verify_chain_iff toy no_verify_fault 0 disordered (λ c. refl)).0 refl

abbrev row_at : ℕ → List (Row Bytes) → Row Bytes
row_at i [] = new_row toy entry [] [] 0 0
row_at zero (e ∷ rest) = e
row_at (suc i) (e ∷ rest) = row_at i rest

pruned-breaks_example : ¬ IsIntact toy (pruned 7 disordered)
unfolding write_entry decimal compute_hash eq_bytes
pruned-breaks_example =
    pruned-breaks toy 7 disordered [] (row_at 0 disordered.rows) (row_at 1 disordered.rows)
      (row_at 2 disordered.rows) [] refl refl refl refl (λ h. cc) disordered-IsIntact
