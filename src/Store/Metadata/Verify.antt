-- ===== src/Store/Metadata/Verify.antt =====
-- The identity check of crates/store/src/metadata.rs: what each run leaves in the table.
use superquery_node.Common.{
  if◌then◌else◌, Bool-cases, Option-cases, all, keep, is_empty, All, All-weaken, str_eq_iff,
  str_eq_refl, err, ok, String, str_eq, ◌≡◌, refl, ap, ◌∙◌, inl, inr, Bool, true, false, none, some,
  [], ◌∷◌, arith,
}
use superquery_node.Store.Error.{StoreError}
use Prim.Native.String.{◌++◌ as push_str}
use superquery_node.Store.Metadata.{
  get, Table, missing_facts, verify_facts, InitOutcome, resumed, initialized, set_all,
}
use superquery_node.Store.Metadata.Select.{get-set_all, Distinct, or_else}

abbrev pub absent : Table → String × String → Bool
absent table fact = elim (get fact.0 table) [ none ↦ true | some found ↦ false ]

-- The table does not hold another value under the fact's key.
abbrev pub compatible : Table → String × String → Bool
compatible table fact = elim (get fact.0 table) [ none ↦ true | some found ↦ str_eq found fact.1 ]

missing_facts-ok :
    (schema : String) (table checks : Table)
    → all (compatible table) checks ≡ true
    → missing_facts schema table checks ≡ ok (keep (absent table) checks)
unfolding missing_facts
missing_facts-ok schema table [] e = refl
missing_facts-ok schema table ((key, expected) ∷ checks) e =
    ground (arith, missing_facts-ok schema table checks)

missing_facts-err :
    (schema : String) (table checks : Table)
    → all (compatible table) checks ≡ false
    → (key : String) × (missing_facts schema table checks ≡ err (StoreError.metadata_conflict key))
unfolding missing_facts
missing_facts-err schema table [] e = ground arith
missing_facts-err schema table ((key, expected) ∷ checks) e =
    elim (Bool-cases (compatible table (key, expected))) [
      | inl same ↦
          let (text, rest) = missing_facts-err schema table checks (ground arith) in
          (text, ground arith)
      | inr other ↦ (push_str schema key, ground arith)
    ]

get-keep :
    (k : String) (table checks : Table)
    → get k (keep (absent table) checks)
      ≡ elim (get k table) [ none ↦ get k checks | some found ↦ none ]
unfolding get
get-keep k table [] = ground arith
get-keep k table ((key, value) ∷ checks) = ground (arith, get-keep k table checks, str_eq_iff key k)

Distinct-keep : (table checks : Table) → Distinct checks → Distinct (keep (absent table) checks)
Distinct-keep table [] d = tt
Distinct-keep table ((key, value) ∷ checks) d =
    ground (arith, Distinct-keep table checks d.1, get-keep key table checks)

pub verify_facts-ok :
    (schema : String) (table checks : Table)
    → all (compatible table) checks ≡ true
    → verify_facts schema checks table ≡ (
      ok (if is_empty (keep (absent table) checks) then resumed else initialized),
      set_all (keep (absent table) checks) table,
    )
unfolding verify_facts
verify_facts-ok schema table checks e =
    rw (verify_facts, missing_facts-ok schema table checks e) refl

-- A conflict: a fact whose key holds another value. The run fails and the table stays.
pub verify_facts-err :
    (schema : String) (table checks : Table)
    → all (compatible table) checks ≡ false
    → (text : String) × (verify_facts schema checks table
        ≡ (err (StoreError.metadata_conflict text), table))
unfolding verify_facts
verify_facts-err schema table checks e =
    let (text, failed) = missing_facts-err schema table checks e in
    (text, rw (verify_facts, failed) refl)

-- A check of distinct keys that succeeds: every key then holds what it held before, else what
-- the check expects.
pub verify_facts-get :
    (schema : String) (checks table after : Table) (outcome : InitOutcome)
    → Distinct checks
    → verify_facts schema checks table ≡ (ok outcome, after)
    → (k : String) → get k after ≡ or_else (get k table) (get k checks)
verify_facts-get schema checks table after outcome d e k =
    elim (Bool-cases (all (compatible table) checks)) [
      | inl good ↦ ground (
        arith,
        verify_facts-ok schema table checks good,
        get-set_all k (keep (absent table) checks) table (Distinct-keep table checks d),
        get-keep k table checks,
      )
      | inr bad ↦ ground (arith, verify_facts-err schema table checks bad)
    ]

get-All : (checks : Table) → Distinct checks → All (λ fact. get fact.0 checks ≡ some fact.1) checks
unfolding get
get-All [] d = tt
get-All ((key, value) ∷ checks) d = (
  rw (str_eq_refl key) refl,
  All-weaken _ _ checks (λ fact e. ground (arith, e, d.0, str_eq_iff key fact.0))
      (get-All checks d.1),
)

holds_each :
    (table after cs : Table)
    → all (compatible table) cs ≡ true
    → All (λ fact. get fact.0 after ≡ or_else (get fact.0 table) (some fact.1)) cs
    → All (λ fact. get fact.0 after ≡ some fact.1) cs
holds_each table after [] good h = tt
holds_each table after ((key, value) ∷ cs) good h = elim (Option-cases (get key table)) [
  | inl none_yet ↦ (ground (arith, h.0), holds_each table after cs (ground arith) h.1)
  | inr (found, e) ↦
      (ground (arith, h.0, str_eq_iff found value), holds_each table after cs (ground arith) h.1)
]

-- After a check that succeeds the table holds every fact as the check has it.
pub verify_facts-All :
    (schema : String) (checks table after : Table) (outcome : InitOutcome)
    → Distinct checks
    → verify_facts schema checks table ≡ (ok outcome, after)
    → All (λ fact. get fact.0 after ≡ some fact.1) checks
verify_facts-All schema checks table after outcome d e =
    elim (Bool-cases (all (compatible table) checks)) [
      | inl good ↦ holds_each table after checks good (
          All-weaken _ _ checks
            (λ fact found.
              verify_facts-get schema checks table after outcome d e fact.0
              ∙ ap (or_else (get fact.0 table)) found)
            (get-All checks d))
      | inr bad ↦ ground (arith, verify_facts-err schema table checks bad)
    ]
