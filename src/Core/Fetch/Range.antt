-- ===== src/Core/Fetch/Range.antt =====
-- crates/core/src/fetch/range.rs: the batches to fetch. Heights are u64 and sizes u32.
pub mod Bypass
pub mod Batch
use superquery_node.Common.{
  ltb, leb, ◌==◌, if◌then◌else◌, checked_succ, saturating_add, saturating_sub, length, any, find,
  keep, ℕ, zero, suc, ◌-◌, min, Bool, not, ◌&&◌, ◌||◌, Option, none, some, List, [], ◌∷◌, ◌++◌,
}

pub record BlockRange : Type 0 where
  pub start : ℕ
  pub end : ℕ

-- `BlockRange::new`
unfoldable pub new_range : ℕ → ℕ → Option BlockRange
new_range start end = if leb start end then some (record { start = start; end = end }) else none

unfoldable pub len : BlockRange → ℕ
len r = saturating_add (saturating_sub r.end r.start) 1

unfoldable pub contains : ℕ → BlockRange → Bool
contains height r = leb r.start height && leb height r.end

-- The heights `from`, `from + 1`, …, as many as the first argument says.
abbrev pub count_up : ℕ → ℕ → List ℕ
count_up zero from = []
count_up (suc n) from = from ∷ count_up n (suc from)

unfoldable pub heights : BlockRange → List ℕ
heights r = count_up (suc r.end - r.start) r.start

pub record RangePlan : Type 0 where
  pub bypass : List BlockRange

-- `RangePlan::new`, and the builder `RangePlan::bypass`.
abbrev pub no_bypass : RangePlan
no_bypass = record { bypass = [] }

unfoldable pub with_bypass : RangePlan → ℕ → ℕ → RangePlan
unfolding new_range
with_bypass plan start end = elim (new_range start end) [
  | none ↦ plan
  | some r ↦ record { bypass = plan.bypass ++ r ∷ [] }
]

unfoldable pub is_bypassed : RangePlan → ℕ → Bool
unfolding contains
is_bypassed plan height = any (contains height) plan.bypass

-- The loop of `advance_past_bypass`: the first argument counts the rounds that are left.
unfoldable pub advance : ℕ → List BlockRange → ℕ → ℕ → Option ℕ
unfolding contains checked_succ
advance zero spans height ceiling = none
advance (suc rounds) spans height ceiling = elim (find (contains height) spans) [
  | none ↦ if leb height ceiling then some height else none
  | some r ↦ elim (checked_succ r.end) [
    | none ↦ none
    | some height' ↦ advance rounds spans height' ceiling
  ]
]

unfoldable pub advance_past_bypass : RangePlan → ℕ → ℕ → Option ℕ
unfolding advance
advance_past_bypass plan height ceiling =
    advance (suc (length plan.bypass)) plan.bypass height ceiling

-- The smallest `r.start - 1` over the spans that begin behind `start` and not behind `span_end`, or
-- `span_end` where there is none.
unfoldable pub batch_end : List BlockRange → ℕ → ℕ → ℕ
batch_end [] start span_end = span_end
batch_end (r ∷ spans) start span_end =
    if ltb start r.start && leb r.start span_end
    then min (r.start - 1) (batch_end spans start span_end)
    else batch_end spans start span_end

abbrev pub ceiling_of : ℕ → Option ℕ → ℕ
ceiling_of safe_head none = safe_head
ceiling_of safe_head (some end) = min safe_head end

-- The end of `next_batch`, behind `advance_past_bypass(…)?`.
unfoldable pub batch_at : RangePlan → ℕ → ℕ → Option ℕ → Option BlockRange
unfolding batch_end new_range
batch_at plan ceiling batch_size none = none
batch_at plan ceiling batch_size (some start) =
    let span_end = min (saturating_add start (batch_size - 1)) ceiling in
    new_range start (batch_end plan.bypass start span_end)

unfoldable pub next_batch : RangePlan → ℕ → ℕ → ℕ → Option ℕ → Option BlockRange
next_batch plan next_height safe_head batch_size end_height =
    let ceiling = ceiling_of safe_head end_height in
    if batch_size == 0 || ltb ceiling next_height
    then none
    else batch_at plan ceiling batch_size (advance_past_bypass plan next_height ceiling)

unfoldable pub heights_in : RangePlan → BlockRange → List ℕ
unfolding is_bypassed heights
heights_in plan range = keep (λ h. not (is_bypassed plan h)) (heights range)

-- The last argument is unused, as in the source.
unfoldable pub safe_head : ℕ → ℕ → Bool → ℕ → ℕ
safe_head latest finalized unfinalized confirmations =
    if unfinalized then latest else min finalized latest
