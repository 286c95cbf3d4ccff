-- ===== src/Store/Versions/AsOf.antt =====
-- The range algebra of a rewind of crates/store/src/rewind.rs.
use superquery_node.Common.{
  ltb, leb, if◌then◌else◌, Option-cases, ℕ, min, ◌≡◌, refl, inl, inr, Bool, true, ◌&&◌, Option,
  none, some, List, [], ◌∷◌, arith,
}
use superquery_node.Store.Versions.{delete_versions_above, Version, reopen_versions, reopen_version}

abbrev pub is_within : Option ℕ → ℕ → Bool
is_within none height = true
is_within (some end) height = ltb height end

module _ {Row : Type 0} where
  -- The rows an entity's table had at a height: those of the versions valid there.
  abbrev pub as_of : ℕ → List (Version Row) → List Row
  as_of height [] = []
  as_of height (v ∷ versions) =
      if leb v.lower height && is_within v.upper height
      then v.row ∷ as_of height versions
      else as_of height versions

  abbrev pub rewound : ℕ → List (Version Row) → List (Version Row)
  rewound height versions = reopen_versions height (delete_versions_above height versions)

  -- After both statements, the table at any height is what it was there, or, above the height
  -- rewound to, what it was at that height.
  pub rewound-as_of :
      (height at : ℕ) (versions : List (Version Row))
      → as_of at (rewound height versions) ≡ as_of (min at height) versions
  unfolding delete_versions_above reopen_versions reopen_version
  rewound-as_of height at [] = refl
  rewound-as_of height at (v ∷ versions) = elim (Option-cases v.upper) [
    | inl open_ended ↦ ground (arith, open_ended, rewound-as_of height at versions)
    | inr (end, closed) ↦ ground (arith, closed, rewound-as_of height at versions)
  ]
