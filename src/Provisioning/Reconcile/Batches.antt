-- ===== src/Provisioning/Reconcile/Batches.antt =====
-- The batches of `ReconcileAll`, against one pass over the entries.
use freecloud.Prelude.{
  ℕ, Bool, false, String, str_eq, eq_iff, List, [], ◌∷◌, ◌++◌, Option, some, ◌≡◌, refl, ap, sym,
  ◌∙◌, All, All-append, append_assoc, append-nil, Bool-cases, inl, inr,
}
use freecloud.Provisioning.Table.{StateRow, UserRow, Connector}
use freecloud.Provisioning.Reconcile.{
  StaleEntry, OrgBatch, add_entry, batch_from, reconcile_one, reconcile_entries, reconcile_batches,
  reconcile_all, stale_entries,
}

unfoldable pub flatten : List OrgBatch → List StaleEntry
flatten [] = []
flatten (b ∷ batches) = b.entries ++ flatten batches

flatten-add_entry :
    (se : StaleEntry) (batches : List OrgBatch)
    → flatten (add_entry se batches) ≡ flatten batches ++ se ∷ []
unfolding flatten add_entry
flatten-add_entry se [] = refl
flatten-add_entry se (b ∷ []) = elim (Bool-cases (str_eq b.org_id se.org_id)) [
  | inl same ↦ rw same (simp (append_assoc, append-nil))
  | inr other ↦ rw other (simp append-nil)
]
flatten-add_entry se (b ∷ c ∷ batches) = simp (append_assoc, flatten-add_entry se (c ∷ batches))

flatten-batch_from :
    (batches : List OrgBatch) (entries : List StaleEntry)
    → flatten (batch_from batches entries) ≡ flatten batches ++ entries
unfolding batch_from
flatten-batch_from batches [] = sym (append-nil (flatten batches))
flatten-batch_from batches (se ∷ entries) =
    flatten-batch_from (add_entry se batches) entries
    ∙ ap (λ (l : List StaleEntry). l ++ entries) (flatten-add_entry se batches)
    ∙ append_assoc (flatten batches) (se ∷ []) entries

-- Every entry of the batch is of its org.
abbrev pub IsOfOneOrg : OrgBatch → Type 0
IsOfOneOrg b = All (λ se. se.org_id ≡ b.org_id) b.entries

add_entry-IsOfOneOrg :
    (se : StaleEntry) (batches : List OrgBatch)
    → All IsOfOneOrg batches
    → All IsOfOneOrg (add_entry se batches)
unfolding add_entry
add_entry-IsOfOneOrg se [] h = ((refl, tt), tt)
add_entry-IsOfOneOrg se (b ∷ []) (h, _) = elim (Bool-cases (str_eq b.org_id se.org_id)) [
  | inl same ↦ rw same (
    All-append (λ x. x.org_id ≡ b.org_id) b.entries (se ∷ []) h
        (sym ((eq_iff b.org_id se.org_id).0 same), tt),
    tt,
  )
  | inr other ↦ rw other (h, ((refl, tt), tt))
]
add_entry-IsOfOneOrg se (b ∷ c ∷ batches) (h, hs) = (h, add_entry-IsOfOneOrg se (c ∷ batches) hs)

batch_from-IsOfOneOrg :
    (batches : List OrgBatch) (entries : List StaleEntry)
    → All IsOfOneOrg batches
    → All IsOfOneOrg (batch_from batches entries)
unfolding batch_from
batch_from-IsOfOneOrg batches [] h = h
batch_from-IsOfOneOrg batches (se ∷ entries) h =
    batch_from-IsOfOneOrg (add_entry se batches) entries (add_entry-IsOfOneOrg se batches h)

module _ (write_fails : StaleEntry → Bool) (now : ℕ) (connectors : String → Option Connector) where
  reconcile_entries-append :
      (xs ys : List StaleEntry) (rows : List StateRow)
      → reconcile_entries write_fails now connectors (xs ++ ys) rows
        ≡ reconcile_entries write_fails now connectors ys
            (reconcile_entries write_fails now connectors xs rows)
  unfolding reconcile_entries
  reconcile_entries-append [] ys rows = refl
  reconcile_entries-append (x ∷ xs) ys rows =
      reconcile_entries-append xs ys (reconcile_one write_fails now connectors x rows)

  reconcile_batches-flatten :
      (batches : List OrgBatch) (rows : List StateRow)
      → reconcile_batches write_fails now connectors batches rows
        ≡ reconcile_entries write_fails now connectors (flatten batches) rows
  unfolding reconcile_batches flatten reconcile_entries
  reconcile_batches-flatten [] rows = refl
  reconcile_batches-flatten (b ∷ batches) rows =
      reconcile_batches-flatten batches
        (reconcile_entries write_fails now connectors b.entries rows)
      ∙ sym (reconcile_entries-append b.entries (flatten batches) rows)

  -- Going org by org changes nothing: each batch holds the entries of one org, and ReconcileAll
  -- leaves the table that one pass over the query's rows, in their order, would leave.
  pub reconcile_all_in_order :
      (order : List StaleEntry → List StaleEntry) (users : List UserRow) (rows : List StateRow)
      → (reconcile_all write_fails now connectors false order users rows
          ≡ some (
              reconcile_entries write_fails now connectors
                (order (stale_entries now users rows))
                rows))
        × All IsOfOneOrg (batch_from [] (order (stale_entries now users rows)))
  unfolding reconcile_all flatten
  reconcile_all_in_order order users rows =
      let entries = order (stale_entries now users rows) in
      (
        ap some (
            reconcile_batches-flatten (batch_from [] entries) rows
            ∙ ap (λ (l : List StaleEntry). reconcile_entries write_fails now connectors l rows)
                (flatten-batch_from [] entries)),
        batch_from-IsOfOneOrg [] entries tt,
      )
