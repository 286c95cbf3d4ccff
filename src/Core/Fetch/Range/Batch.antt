-- ===== src/Core/Fetch/Range/Batch.antt =====
-- `next_batch` of range.rs: where a batch starts and ends, and when there is none.
use superquery_node.Common.{
  ltb, ◌==◌, le→leb, Bool-cases, u64_max, saturating_add, keep, ℕ, zero, suc, ◌+◌, ◌-◌, ◌≤◌, ◌<◌,
  min, ◌≡◌, refl, ap, inl, inr, Bool, true, false, not, ◌||◌, Option, none, some, List, [], ◌∷◌,
  arith,
}
use superquery_node.Core.Fetch.Range.{
  BlockRange, RangePlan, contains, heights, count_up, is_bypassed, batch_end, batch_at, ceiling_of,
  next_batch, heights_in,
}
use superquery_node.Core.Fetch.Range.Bypass.{Clear, Answers, advance_past_bypass-Answers}

batch_end_bounds :
    (spans : List BlockRange) (start span_end : ℕ)
    → start ≤ span_end
    → (start ≤ batch_end spans start span_end) × (batch_end spans start span_end ≤ span_end)
unfolding batch_end
batch_end_bounds [] start span_end h = (h, omega arith)
batch_end_bounds (r ∷ spans) start span_end h =
    ground (arith, batch_end_bounds spans start span_end h)

batch_end-Clear :
    (spans : List BlockRange) (start span_end h : ℕ)
    → start ≤ h
    → h ≤ batch_end spans start span_end
    → h ≤ span_end
    → Clear spans start
    → Clear spans h
unfolding batch_end contains
batch_end-Clear [] start span_end h lo hi le clear = refl
batch_end-Clear (r ∷ spans) start span_end h lo hi le clear =
    ground (arith, batch_end-Clear spans start span_end h lo)

-- What the scheduler relies on in a batch from `next_height`.
pub record IsBatch (plan : RangePlan) (next_height ceiling batch_size : ℕ) (r : BlockRange)
    : Type 0 where
  pub starts : next_height ≤ r.start
  pub ordered : r.start ≤ r.end
  pub ends : r.end ≤ ceiling
  pub sized : r.end < r.start + batch_size
  pub clear : (h : ℕ) → r.start ≤ h → h ≤ r.end → is_bypassed plan h ≡ false
  pub skipped : (h : ℕ) → next_height ≤ h → h < r.start → is_bypassed plan h ≡ true

-- Of `next_batch` from `next_height`: a batch, or the reason why there is none.
abbrev pub Planned : RangePlan → ℕ → ℕ → ℕ → Option BlockRange → Type 0
Planned plan next_height ceiling batch_size none =
    (h : ℕ) → next_height ≤ h → h ≤ ceiling → is_bypassed plan h ≡ true
Planned plan next_height ceiling batch_size (some r) = IsBatch plan next_height ceiling batch_size r

batch_at-Planned :
    (plan : RangePlan) (next_height ceiling batch_size : ℕ) (answer : Option ℕ)
    → 0 < batch_size
    → ceiling ≤ u64_max
    → Answers plan.bypass next_height ceiling answer
    → Planned plan next_height ceiling batch_size (batch_at plan ceiling batch_size answer)
unfolding batch_at is_bypassed
batch_at-Planned plan next_height ceiling batch_size none positive top covered = covered
batch_at-Planned plan next_height ceiling batch_size (some start) positive top
      (starts, below, clear, skipped) =
    let span_end : ℕ = min (saturating_add start (batch_size - 1)) ceiling in
    let (lo, hi) = batch_end_bounds plan.bypass start span_end (omega arith) in
    rw (le→leb _ _ lo) (record {
      starts = starts;
      ordered = lo;
      ends = omega arith;
      sized = omega arith;
      clear = λ h from to. batch_end-Clear plan.bypass start span_end h from to (omega arith) clear;
      skipped = skipped;
    })

-- A batch lies between the next height and the safe head and end height, holds at most `batch_size`
-- heights and none that is bypassed, and skips bypassed heights only. With a positive batch size
-- there is no batch only if every height left up to the safe head and end height is bypassed.
pub next_batch-Planned :
    (plan : RangePlan) (next_height safe_head batch_size : ℕ) (end_height : Option ℕ)
    → 0 < batch_size
    → ceiling_of safe_head end_height ≤ u64_max
    → Planned plan next_height
        (ceiling_of safe_head end_height)
        batch_size
        (next_batch plan next_height safe_head batch_size end_height)
unfolding next_batch
next_batch-Planned plan next_height safe_head batch_size end_height positive top =
    elim (Bool-cases (batch_size == 0 || ltb (ceiling_of safe_head end_height) next_height)) [
      | inl nothing ↦
          let past : ceiling_of safe_head end_height < next_height = ground arith in
          rw nothing (λ h lo hi. absurd (omega arith))
      | inr more ↦ rw more (
          batch_at-Planned plan next_height (ceiling_of safe_head end_height) batch_size _ positive
            top
            (advance_past_bypass-Answers plan next_height (ceiling_of safe_head end_height) top))
    ]

-- `heights_in` drops nothing from a planned batch: `next_batch` has stopped before the next span.
keep_all :
    (p : ℕ → Bool) (n from : ℕ)
    → ((h : ℕ) → from ≤ h → h < from + n → p h ≡ true)
    → keep p (count_up n from) ≡ count_up n from
keep_all p zero from h = refl
keep_all p (suc n) from h =
    rw (h from (omega arith) (omega arith))
      (ap (◌∷◌ from) (keep_all p n (suc from) (λ x lo hi. h x (omega arith) (omega arith))))

pub heights_in-IsBatch :
    (plan : RangePlan) (next_height ceiling batch_size : ℕ) (r : BlockRange)
    → IsBatch plan next_height ceiling batch_size r
    → heights_in plan r ≡ heights r
unfolding heights_in heights
heights_in-IsBatch plan next_height ceiling batch_size r b =
    keep_all (λ h. not (is_bypassed plan h)) (suc r.end - r.start) r.start
      (λ h lo hi. ap not (b.clear h lo (omega (arith, b.ordered))))
