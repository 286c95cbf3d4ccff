-- ===== src/Core/Project/BlockHeightMap.antt =====
-- crates/core/src/project/block_height_map.rs: a value that changes at known heights.
use superquery_node.Common.{
  ltb, leb, if◌then◌else◌, Map, insert, Result, err, ok, ℕ, ◌-◌, ◌&&◌, Option, none, some, List, [],
  ◌∷◌,
}
pub mod Ranges

pub record GetRange {ℓ} (T : Type ℓ) : Type ℓ where
  pub value : T
  pub start_height : ℕ
  pub end_height : Option ℕ

module _ {ℓ} {T : Type ℓ} where
  -- `range(..=height).next_back()`
  unfoldable pub last_up_to : ℕ → Map T → Option (ℕ × T)
  last_up_to height [] = none
  last_up_to height ((k, v) ∷ entries) = elim (last_up_to height entries) [
    | some entry ↦ some entry
    | none ↦ if leb k height then some (k, v) else none
  ]

  -- `range((Excluded(start), Unbounded)).next()`, its key less one.
  unfoldable pub end_after : ℕ → Map T → Option ℕ
  end_after start [] = none
  end_after start ((k, v) ∷ entries) = if ltb start k then some (k - 1) else end_after start entries

  unfoldable pub get_details : ℕ → Map T → Option (T × ℕ × Option ℕ)
  unfolding last_up_to end_after
  get_details height entries = elim (last_up_to height entries) [
    | none ↦ none
    | some (start, value) ↦ some (value, start, end_after start entries)
  ]

  -- `get`, whose error carries the height.
  unfoldable pub get : ℕ → Map T → Result ℕ T
  unfolding get_details
  get height entries = elim (get_details height entries) [
    | none ↦ err height
    | some (value, start, end) ↦ ok value
  ]

  unfoldable pub get_safe : ℕ → Map T → Option T
  unfolding get
  get_safe height entries = elim (get height entries) [ err h ↦ none | ok value ↦ some value ]

  abbrev first_less_one : Map T → Option ℕ
  first_less_one [] = none
  first_less_one ((k, v) ∷ entries) = some (k - 1)

  unfoldable pub get_all_with_range : Map T → List (GetRange T)
  get_all_with_range [] = []
  get_all_with_range ((k, v) ∷ entries) =
      record { value = v; start_height = k; end_height = first_less_one entries }
      ∷ get_all_with_range entries

  -- The entry before the first that reaches the range is the one in effect at its start.
  unfoldable straddled : ℕ → ℕ → Option (ℕ × T) → Map T → Map T
  straddled start_height k none result = result
  straddled start_height k (some (j, v)) result =
      if ltb j start_height && leb start_height k then insert j v result else result

  -- The loop of `get_within_range`, with the key and value seen last.
  unfoldable pub within : ℕ → ℕ → Option (ℕ × T) → Map T → Map T → Map T
  unfolding straddled
  within start_height end_height previous result [] = result
  within start_height end_height previous result ((k, v) ∷ entries) =
      let with_previous = straddled start_height k previous result in
      let with_key =
        if leb start_height k && leb k end_height
        then insert k v with_previous
        else with_previous in
      within start_height end_height (some (k, v)) with_key entries

  unfoldable pub get_within_range : ℕ → ℕ → Map T → Map T
  unfolding within
  get_within_range start_height end_height entries = within start_height end_height none [] entries

module _ {ℓ κ} {T : Type ℓ} {U : Type κ} where
  unfoldable pub map_values : (T → U) → Map T → Map U
  map_values f [] = []
  map_values f ((k, v) ∷ entries) = (k, f v) ∷ map_values f entries
