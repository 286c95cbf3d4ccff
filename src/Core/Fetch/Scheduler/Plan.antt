-- ===== src/Core/Fetch/Scheduler/Plan.antt =====
-- The heights that scheduler.rs has planned and not yet had acknowledged.
use superquery_node.Common.{
  ◌==◌, ==_iff, Bool-cases, Option-cases, u64_max, take, is_empty, Result, ok, err, Result-cases, ℕ,
  zero, suc, ◌+◌, ◌-◌, ◌≤◌, ◌<◌, min, ◌≡◌, refl, inl, inr, true, false, not, ◌||◌, Option, none,
  some, List, [], ◌∷◌, arith,
}
use superquery_node.Core.Fetch.Range.{
  BlockRange, RangePlan, is_bypassed, heights, count_up, heights_in, ceiling_of, next_batch,
}
use superquery_node.Core.Fetch.Range.Batch.{IsBatch, heights_in-IsBatch, next_batch-Planned}
use superquery_node.Core.Fetch.Scheduler.{
  SchedulerConfig, FetchScheduler, new, resume_from, scheduler_head, plan_batch, acknowledge,
  next_heights, is_complete,
}
use superquery_node.ChainApi.Error.{ChainError}
use superquery_node.Core.Error.{CoreError}
use superquery_node.Core.Fetch.Backpressure.{clamp_batch}

-- Every height from `a` up to `b`, exclusively, is bypassed.
abbrev pub Gap : RangePlan → ℕ → ℕ → Type 0
Gap plan a b = (h : ℕ) → a ≤ h → h < b → is_bypassed plan h ≡ true

-- The heights ascend from `n`, none is bypassed or u64::MAX, and all between them are bypassed.
abbrev pub Steps : RangePlan → ℕ → List ℕ → Type 0
Steps plan n [] = Unit
Steps plan n (h ∷ hs) =
    (n ≤ h) × Gap plan n h × (is_bypassed plan h ≡ false) × (h < u64_max) × Steps plan (suc h) hs

-- What holds of a scheduler between its calls.
pub record IsPlanned (s : FetchScheduler) : Type 0 where
  pub steps : Steps s.plan s.next_height s.pending
  pub bounded : s.exhausted ≡ false

pub new-IsPlanned : (config : SchedulerConfig) (plan : RangePlan) → IsPlanned (new config plan)
unfolding new
new-IsPlanned config plan = record { steps = tt; bounded = refl }

pub resume_from-IsPlanned :
    (s : FetchScheduler) (last_indexed : ℕ)
    → last_indexed < u64_max
    → IsPlanned (resume_from s last_indexed)
unfolding resume_from
resume_from-IsPlanned s last_indexed small = record { steps = tt; bounded = ground arith }

count_up-Steps :
    (plan : RangePlan) (n from next : ℕ)
    → next ≤ from
    → Gap plan next from
    → ((h : ℕ) → from ≤ h → h < from + n → is_bypassed plan h ≡ false)
    → from + n ≤ u64_max
    → Steps plan next (count_up n from)
count_up-Steps plan zero from next le gap clear top = tt
count_up-Steps plan (suc n) from next le gap clear top = (
  le,
  gap,
  clear from (omega arith) (omega arith),
  omega arith,
  count_up-Steps plan n (suc from) (suc from) (omega arith) (λ h lo hi. absurd (omega arith))
      (λ h lo hi. clear h (omega arith) (omega arith)) (omega arith),
)

batch-Steps :
    (plan : RangePlan) (next ceiling size : ℕ) (r : BlockRange)
    → ceiling < u64_max
    → IsBatch plan next ceiling size r
    → Steps plan next (heights_in plan r)
unfolding heights
batch-Steps plan next ceiling size r top b = rw (heights_in-IsBatch plan next ceiling size r b) (
    count_up-Steps plan (suc r.end - r.start) r.start next b.starts b.skipped
      (λ h lo hi. b.clear h lo (omega (arith, b.ordered))) (omega (arith, b.ordered, b.ends)))

take-Steps :
    (plan : RangePlan) (n next : ℕ) (hs : List ℕ) → Steps plan next hs → Steps plan next (take n hs)
take-Steps plan zero next hs st = tt
take-Steps plan (suc n) next [] st = tt
take-Steps plan (suc n) next (h ∷ hs) (a, b, c, d, e) = (a, b, c, d, take-Steps plan n (suc h) hs e)

-- `hs` begins the list `ks`.
abbrev pub Begins : List ℕ → List ℕ → Type 0
Begins [] ks = Unit
Begins (h ∷ hs) [] = ⊥
Begins (h ∷ hs) (k ∷ ks) = (h ≡ k) × Begins hs ks

Begins-take : (n : ℕ) (hs : List ℕ) → Begins (take n hs) hs
Begins-take zero hs = tt
Begins-take (suc n) [] = tt
Begins-take (suc n) (h ∷ hs) = (refl, Begins-take n hs)

Begins-refl : (hs : List ℕ) → Begins hs hs
Begins-refl [] = tt
Begins-refl (h ∷ hs) = (refl, Begins-refl hs)

-- The scheduler and the heights to fetch that `next_heights` leaves.
pub record Prepared (s s' : FetchScheduler) (hs : List ℕ) : Type 0 where
  pub planned : IsPlanned s'
  pub begins : Begins hs s'.pending
  pub same_next : s'.next_height ≡ s.next_height
  pub same_plan : s'.plan ≡ s.plan
  pub same_config : s'.config ≡ s.config

Prepared-none : (s : FetchScheduler) → IsPlanned s → Prepared s s []
Prepared-none s p = record {
  planned = p;
  begins = tt;
  same_next = refl;
  same_plan = refl;
  same_config = refl;
}

Prepared-take : (s : FetchScheduler) (n : ℕ) → IsPlanned s → Prepared s s (take n s.pending)
Prepared-take s n p = record {
  planned = p;
  begins = Begins-take n s.pending;
  same_next = refl;
  same_plan = refl;
  same_config = refl;
}

ceiling_of-le : (head : ℕ) (end_height : Option ℕ) → ceiling_of head end_height ≤ head
ceiling_of-le head none = omega arith
ceiling_of-le head (some end) = omega arith

Prepared-batch :
    (s : FetchScheduler) (budget head : ℕ)
    → IsPlanned s
    → 0 < budget
    → head < u64_max
    → Prepared s (plan_batch s budget head).0 (plan_batch s budget head).1
unfolding plan_batch
Prepared-batch s budget head p positive small =
    let planned =
      next_batch-Planned s.plan s.next_height head budget s.config.end_height positive
        (omega (arith, ceiling_of-le head s.config.end_height)) in
    elim (Option-cases (next_batch s.plan s.next_height head budget s.config.end_height)) [
      | inl e ↦ rw (e, plan_batch) (Prepared-none s p)
      | inr (r, e) ↦
          rw (e, plan_batch)
            (record {
              planned = record {
                steps =
                    batch-Steps s.plan s.next_height (ceiling_of head s.config.end_height) budget r
                      (omega (arith, ceiling_of-le head s.config.end_height)) (rw e at planned);
                bounded = p.bounded;
              };
              begins = Begins-refl (heights_in s.plan r);
              same_next = refl;
              same_plan = refl;
              same_config = refl;
            })
    ]

-- A height that the chain reports is below u64::MAX.
abbrev pub BelowTop : Result ChainError ℕ → Type 0
BelowTop (ok height) = height < u64_max
BelowTop (err e) = Unit

scheduler_head-lt :
    (s : FetchScheduler) (latest finalized : Result ChainError ℕ) (head : ℕ)
    → BelowTop latest
    → scheduler_head s latest finalized ≡ ok head
    → head < u64_max
unfolding scheduler_head
scheduler_head-lt s (ok l) (ok f) head small e = ground arith
scheduler_head-lt s (ok l) (err x) head small e = cc
scheduler_head-lt s (err x) finalized head small e = cc

-- `next_heights` by cases.
pub next_heights_cases {κ} :
    (P : Result CoreError (FetchScheduler × List ℕ) → Type κ) (s : FetchScheduler)
    (in_flight queued : ℕ) (latest finalized : Result ChainError ℕ)
    → P (ok (s, []))
    → ((n : ℕ) → P (ok (s, take n s.pending)))
    → ((e : CoreError) → P (err e))
    → ((budget head : ℕ)
        → 0 < budget
        → scheduler_head s latest finalized ≡ ok head
        → P (ok (plan_batch s budget head)))
    → P (next_heights s in_flight queued latest finalized)
unfolding next_heights
next_heights_cases P s in_flight queued latest finalized idle kept failed batch =
    let budget : ℕ = clamp_batch s.config.backpressure s.config.batch_size in_flight queued in
    elim (Bool-cases (is_complete s || budget == 0)) [
      | inl done ↦ rw done idle
      | inr open_ ↦ elim (Bool-cases (not (is_empty s.pending))) [
        | inl waiting ↦ rw (open_, waiting) (kept budget)
        | inr empty ↦
            let positive : 0 < budget = ground arith in
            elim (Result-cases (scheduler_head s latest finalized)) [
              | inl (head, e) ↦ rw (open_, empty, e) (batch budget head positive e)
              | inr (x, e) ↦ rw (open_, empty, e) (failed x)
            ]
      ]
    ]

abbrev pub OnOk :
    (FetchScheduler → List ℕ → Type 0) → Result CoreError (FetchScheduler × List ℕ) → Type 0
OnOk P (ok (s, hs)) = P s hs
OnOk P (err e) = Unit

pub next_heights-Prepared :
    (s : FetchScheduler) (in_flight queued : ℕ) (latest finalized : Result ChainError ℕ)
    → IsPlanned s
    → BelowTop latest
    → OnOk (Prepared s) (next_heights s in_flight queued latest finalized)
next_heights-Prepared s in_flight queued latest finalized p small =
    next_heights_cases (OnOk (Prepared s)) s in_flight queued latest finalized (Prepared-none s p)
      (λ n. Prepared-take s n p) (λ e. tt)
      (λ budget head positive e.
        Prepared-batch s budget head p positive (scheduler_head-lt s latest finalized head small e))

-- The next height is acknowledged, and nothing else: any other is refused.
pub acknowledge_front :
    (s : FetchScheduler) (h : ℕ) (hs : List ℕ)
    → s.pending ≡ h ∷ hs
    → IsPlanned s
    → acknowledge s h ≡ ok (record s { pending = hs; exhausted = false; next_height = suc h })
unfolding acknowledge
acknowledge_front s h hs e p =
    let steps : Steps s.plan s.next_height (h ∷ hs) = rw e at p.steps in
    let below : (h == u64_max) ≡ false = ground (arith, steps.3) in
    let front : (h == h) ≡ true = (==_iff h h).1 refl in
    let next : min (h + 1) u64_max ≡ suc h = omega (arith, steps.3) in rw (e, front, below, next)

pub Begins-cons :
    (h : ℕ) (hs ks : List ℕ)
    → Begins (h ∷ hs) ks
    → (rest : List ℕ) × (ks ≡ h ∷ rest) × Begins hs rest
Begins-cons h hs [] b = absurd b
Begins-cons h hs (k ∷ ks) (e, b) = (ks, rw e, b)
