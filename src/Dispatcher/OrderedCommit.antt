-- ===== src/Dispatcher/OrderedCommit.antt =====
-- crates/dispatcher/src/ordered_commit.rs: the reorder buffer. The `BTreeMap` is `Map`, and a
-- method on `&mut self` returns the new buffer.
pub mod Release
pub mod Contract
pub mod History
pub mod Generations
pub mod Reordering
use superquery_node.Common.{
  ltb, leb, ◌==◌, if◌then◌else◌, wrapping_succ, length, head?, Map, insert, lookup, remove, keys, ℕ,
  zero, suc, max, Bool, not, Option, none, some, List, [], ◌∷◌,
}

pub record OrderedCommitBuffer {ℓ} (T : Type ℓ) : Type ℓ where
  pub next_expected : ℕ
  pub pending : Map T
  pub capacity : ℕ
  pub generation : ℕ

module _ {ℓ} {T : Type ℓ} where
  unfoldable pub new : ℕ → ℕ → OrderedCommitBuffer T
  new start_height capacity = record {
    next_expected = start_height;
    pending = [];
    capacity = max capacity 1;
    generation = 0;
  }

  unfoldable pub pending_count : OrderedCommitBuffer T → ℕ
  pending_count buf = length buf.pending

  unfoldable pub is_full : OrderedCommitBuffer T → Bool
  is_full buf = leb buf.capacity (length buf.pending)

  -- The `while let` loop of `complete_from`: the released entries, the height expected next and
  -- what stays pending. Each round takes an entry out, so the fuel is the number of entries.
  unfoldable pub release : ℕ → ℕ → Map T → List (ℕ × T) × ℕ × Map T
  release zero next pending = ([], next, pending)
  release (suc fuel) next pending = elim (lookup next pending) [
    | none ↦ ([], next, pending)
    | some value ↦
        let (released, next', pending') = release fuel (wrapping_succ next) (remove next pending) in
        ((next, value) ∷ released, next', pending')
  ]

  unfoldable pub accept : OrderedCommitBuffer T → ℕ → T → OrderedCommitBuffer T × List (ℕ × T)
  unfolding release
  accept buf height value =
      let pending = insert height value buf.pending in
      let (released, next', pending') = release (length pending) buf.next_expected pending in
      (record buf { next_expected = next'; pending = pending' }, released)

  unfoldable pub complete_from :
      OrderedCommitBuffer T → ℕ → ℕ → T → OrderedCommitBuffer T × List (ℕ × T)
  unfolding accept
  complete_from buf generation height value =
      if not (generation == buf.generation)
      then (buf, [])
      else if ltb height buf.next_expected
      then (buf, [])
      else accept buf height value

  unfoldable pub complete : OrderedCommitBuffer T → ℕ → T → OrderedCommitBuffer T × List (ℕ × T)
  unfolding complete_from
  complete buf height value = complete_from buf buf.generation height value

  unfoldable pub reset_to : OrderedCommitBuffer T → ℕ → OrderedCommitBuffer T × ℕ
  reset_to buf height = (
    record buf { next_expected = height; pending = []; generation = wrapping_succ buf.generation },
    length buf.pending,
  )

  unfoldable pub pending_heights : OrderedCommitBuffer T → List ℕ
  pending_heights buf = keys buf.pending

  unfoldable pub stall_gap : OrderedCommitBuffer T → Option (ℕ × ℕ)
  stall_gap buf = elim (head? buf.pending) [
    | none ↦ none
    | some (lowest, _) ↦ some (buf.next_expected, lowest)
  ]
