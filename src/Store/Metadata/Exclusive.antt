-- ===== src/Store/Metadata/Exclusive.antt =====
-- One schema, one project: the identity check of crates/store/src/metadata.rs run twice.
use superquery_node.Common.{
  Bool-cases, all, All, str_eq_iff, str_eq_refl, err, ok, String, str_eq, ◌≡◌, refl, ◌∙◌, ◌↔◌, ◌⊎◌,
  inl, inr, true, false, ◌&&◌, some, arith,
}
use superquery_node.Store.Error.{StoreError}
use superquery_node.Store.Metadata.{
  get, Table, verify_project, InitOutcome, project_facts, resumed, verify_facts, schema_version,
  set_all,
}
use superquery_node.Store.Metadata.Select.{Distinct}
use superquery_node.Store.Metadata.Verify.{
  verify_facts-All, compatible, verify_facts-ok, verify_facts-err,
}

project_facts-Distinct : (p c f a : String) → Distinct (project_facts p c f a)
unfolding get
project_facts-Distinct p c f a = (refl, (refl, (refl, (refl, (refl, tt)))))

-- Against a table that holds the facts of one project, a check of another's.
again :
    (schema p c f a p' c' f' a' : String) (table : Table)
    → All (λ fact. get fact.0 table ≡ some fact.1) (project_facts p c f a)
    → let same = str_eq p p' && str_eq c c' && str_eq f f' && str_eq a a' in
      let result = verify_facts schema (project_facts p' c' f' a') table in
      ((same ≡ true) × (result ≡ (ok resumed, table)))
      ⊎ ((same ≡ false)
          × (text : String) × (result ≡ (err (StoreError.metadata_conflict text), table)))
unfolding set_all
again schema p c f a p' c' f' a' table held =
    elim (Bool-cases (str_eq p p' && str_eq c c' && str_eq f f' && str_eq a a')) [
      | inl same ↦ inl (same, taken (agreeing ∙ same))
      | inr other ↦
          let (text, failed) = verify_facts-err schema table facts (agreeing ∙ other) in
          inr (other, text, failed)
    ]
  where
    facts : Table
    facts = project_facts p' c' f' a'

    agreeing :
        all (compatible table) facts ≡ (str_eq p p' && str_eq c c' && str_eq f f' && str_eq a a')
    agreeing =
        let (hp, (hc, (hs, (hf, (ha, u))))) = held in
        ground (arith, hp, hc, hs, hf, ha, str_eq_refl schema_version)

    taken :
        all (compatible table) facts ≡ true → verify_facts schema facts table ≡ (ok resumed, table)
    taken good =
        let (hp, (hc, (hs, (hf, (ha, u))))) = held in
        verify_facts-ok schema table facts good ∙ ground (arith, hp, hc, hs, hf, ha)

-- A schema that one run has taken admits a run of the same project, chain, manifest and mapping
-- ABI, and no other; neither changes the table.
pub verify_project-exclusive :
    (schema project_id chain_id fingerprint abi_version : String)
    (project_id' chain_id' fingerprint' abi_version' : String) (table after : Table)
    (outcome : InitOutcome)
    → verify_project schema project_id chain_id fingerprint abi_version table ≡ (ok outcome, after)
    → let again = verify_project schema project_id' chain_id' fingerprint' abi_version' after in
      (again.1 ≡ after)
      × ((again.0 ≡ ok resumed) ↔ (
          (project_id ≡ project_id')
          × (chain_id ≡ chain_id')
          × (fingerprint ≡ fingerprint')
          × (abi_version ≡ abi_version')))
unfolding verify_project
verify_project-exclusive schema p c f a p' c' f' a' table after outcome e =
    let held =
      verify_facts-All schema (project_facts p c f a) table after outcome
        (project_facts-Distinct p c f a) e in
    ground (
      arith,
      again schema p c f a p' c' f' a' after held,
      str_eq_iff p p',
      str_eq_iff c c',
      str_eq_iff f f',
      str_eq_iff a a',
    )

-- The second check resumes, or finds a conflict.
pub verify_project-settled :
    (schema p c f a p' c' f' a' : String) (table after : Table) (outcome : InitOutcome)
    → verify_project schema p c f a table ≡ (ok outcome, after)
    → (verify_project schema p' c' f' a' after ≡ (ok resumed, after))
      ⊎ ((text : String) × (verify_project schema p' c' f' a' after
            ≡ (err (StoreError.metadata_conflict text), after)))
unfolding verify_project
verify_project-settled schema p c f a p' c' f' a' table after outcome e =
    let held =
      verify_facts-All schema (project_facts p c f a) table after outcome
        (project_facts-Distinct p c f a) e in
    elim (again schema p c f a p' c' f' a' after held) [
      | inl (same, taken) ↦ inl taken
      | inr (other, text, refused) ↦ inr (text, refused)
    ]
