-- ===== src/Core/Project/BlockHeightMap/Ranges.antt =====
-- The ranges of crates/core/src/project/block_height_map.rs against its point lookups.
use superquery_node.Common.{
  leb, Option-cases, find, Map, From, ℕ, suc, ◌≤◌, ◌≡◌, refl, ◌∙◌, inl, inr, Bool, true, ◌&&◌,
  Option, none, some, [], ◌∷◌, arith,
}
use superquery_node.Core.Project.BlockHeightMap.{
  get_details, GetRange, get_all_with_range, last_up_to, end_after,
}

module _ {T : Type 0} where
  abbrev pub covers : ℕ → GetRange T → Bool
  covers height range =
      leb range.start_height height
      && elim range.end_height [ none ↦ true | some end ↦ leb height end ]

  abbrev pub as_range : Option (T × ℕ × Option ℕ) → Option (GetRange T)
  as_range none = none
  as_range (some (value, start, end)) =
      some (record { value = value; start_height = start; end_height = end })

  last_up_to_bounds :
      (height lo : ℕ) (entries : Map T) (start : ℕ) (value : T)
      → From lo entries
      → last_up_to height entries ≡ some (start, value)
      → (lo ≤ start) × (start ≤ height)
  unfolding last_up_to
  last_up_to_bounds height lo [] start value f e = ground arith
  last_up_to_bounds height lo ((k, v) ∷ entries) start value f e =
      elim (Option-cases (last_up_to height entries)) [
        | inl out ↦ ground (arith, e, out, f.0)
        | inr (found, there) ↦
            let (above, under) =
              last_up_to_bounds height (suc k) entries start value f.1 (there ∙ (rw there at e)) in
            (omega (arith, f.0, above), under)
      ]

  -- With the entries in key order, a height's details are the one range that covers it.
  pub find-get_all_with_range :
      (height lo : ℕ) (entries : Map T)
      → From lo entries
      → find (covers height) (get_all_with_range entries) ≡ as_range (get_details height entries)
  unfolding get_all_with_range get_details last_up_to end_after
  find-get_all_with_range height lo [] f = refl
  find-get_all_with_range height lo ((k, v) ∷ []) f = ground arith
  find-get_all_with_range height lo ((k, v) ∷ (k', v') ∷ entries) f =
      let rest = find-get_all_with_range height (suc k) ((k', v') ∷ entries) f.1 in
      elim (Option-cases (last_up_to height ((k', v') ∷ entries))) [
        | inl out ↦ ground (arith, out, rest, f.0, f.1.0)
        | inr ((start, value), there) ↦
            let (above, under) =
              last_up_to_bounds height k' ((k', v') ∷ entries) start value (omega arith, f.1.1)
                there in
            ground (arith, there, rest, above, under, f.0, f.1.0)
      ]
