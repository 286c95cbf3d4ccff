-- ===== src/Core/Fetch/Range/Bypass.antt =====
-- `advance_past_bypass` of range.rs: its loop bound is enough, and it skips bypassed heights only.
use superquery_node.Common.{
  leb, if◌then◌else◌, leb→le, Bool-cases, Option-cases, u64_max, checked_succ, length, any, find, ℕ,
  zero, suc, ◌+◌, ◌≤◌, ◌<◌, ◌≡◌, refl, subst, inl, inr, true, false, Option, none, some, List, [],
  ◌∷◌, arith, dec_le,
}
use superquery_node.Core.Fetch.Range.{BlockRange, RangePlan, contains, advance, advance_past_bypass}

abbrev pub Covered : List BlockRange → ℕ → Type 0
Covered spans height = any (contains height) spans ≡ true

abbrev pub Clear : List BlockRange → ℕ → Type 0
Clear spans height = any (contains height) spans ≡ false

contains-bounds :
    (height : ℕ) (r : BlockRange) → contains height r ≡ true → (r.start ≤ height) × (height ≤ r.end)
unfolding contains
contains-bounds height r h = ground arith

pub bounds-contains :
    (height : ℕ) (r : BlockRange) → r.start ≤ height → height ≤ r.end → contains height r ≡ true
unfolding contains
bounds-contains height r h k = ground arith

-- How many spans end at or after a height.
live : List BlockRange → ℕ → ℕ
live [] height = 0
live (r ∷ spans) height = (if leb height r.end then 1 else 0) + live spans height

live-le-length : (spans : List BlockRange) (height : ℕ) → live spans height ≤ length spans
unfolding live
live-le-length [] height = omega arith
live-le-length (r ∷ spans) height = ground (arith, live-le-length spans height)

live_mono : (spans : List BlockRange) (low high : ℕ) → low ≤ high → live spans high ≤ live spans low
unfolding live
live_mono [] low high h = omega arith
live_mono (r ∷ spans) low high h = ground (arith, live_mono spans low high h)

-- The span that was found, with what a pass over it does.
record Found (spans : List BlockRange) (height : ℕ) (r : BlockRange) : Type 0 where
  starts : r.start ≤ height
  ends : height ≤ r.end
  covers : (h : ℕ) → height ≤ h → h ≤ r.end → Covered spans h
  passed : live spans (suc r.end) < live spans height

Found-head :
    (spans : List BlockRange) (height : ℕ) (r : BlockRange)
    → contains height r ≡ true
    → Found (r ∷ spans) height r
unfolding live
Found-head spans height r hit =
    let (starts, ends) = contains-bounds height r hit in
    record {
      starts = starts;
      ends = ends;
      covers = λ h lo hi. rw (bounds-contains h r (omega arith) hi);
      passed = ground (arith, live_mono spans height (suc r.end));
    }

Found-tail :
    (spans : List BlockRange) (height : ℕ) (s r : BlockRange)
    → Found spans height r
    → Found (s ∷ spans) height r
unfolding live
Found-tail spans height s r f = record {
  starts = f.starts;
  ends = f.ends;
  covers = λ h lo hi. ground (arith, f.covers h lo hi);
  passed = ground (arith, f.starts, f.ends, f.passed);
}

find-Found :
    (spans : List BlockRange) (height : ℕ) (r : BlockRange)
    → find (contains height) spans ≡ some r
    → Found spans height r
find-Found [] height r e = cc
find-Found (s ∷ spans) height r e = elim (Bool-cases (contains height s)) [
  | inl hit ↦
      let same : s ≡ r = ground arith in
      subst (Found (s ∷ spans) height) same (Found-head spans height s hit)
  | inr miss ↦ Found-tail spans height s r (find-Found spans height r (rw miss at e))
]

find-Clear :
    (spans : List BlockRange) (height : ℕ)
    → find (contains height) spans ≡ none
    → Clear spans height
find-Clear [] height e = refl
find-Clear (s ∷ spans) height e = ground (arith, find-Clear spans height)

checked_succ-none : (n : ℕ) → checked_succ n ≡ none → u64_max ≤ n
unfolding checked_succ
checked_succ-none n e = ground arith

checked_succ-some : (n m : ℕ) → checked_succ n ≡ some m → m ≡ suc n
unfolding checked_succ
checked_succ-some n m e = ground arith

-- What `advance` answers from `height`: the first height that no span covers, if it is not behind
-- the ceiling; `none` only if every height up to the ceiling is covered.
abbrev pub Answers : List BlockRange → ℕ → ℕ → Option ℕ → Type 0
Answers spans height ceiling none = (h : ℕ) → height ≤ h → h ≤ ceiling → Covered spans h
Answers spans height ceiling (some start) =
    (height ≤ start)
    × (start ≤ ceiling)
    × Clear spans start
    × ((h : ℕ) → height ≤ h → h < start → Covered spans h)

Answers-step :
    (spans : List BlockRange) (height ceiling : ℕ) (r : BlockRange) (answer : Option ℕ)
    → Found spans height r
    → Answers spans (suc r.end) ceiling answer
    → Answers spans height ceiling answer
Answers-step spans height ceiling r none f later = λ h lo hi. elim (dec_le h r.end) [
  | yes inside ↦ f.covers h lo inside
  | no beyond ↦ later h (omega arith) hi
]
Answers-step spans height ceiling r (some start) f later = (
  omega (arith, f.ends, later.0),
  later.1,
  later.2,
  λ h lo hi. elim (dec_le h r.end) [
    | yes inside ↦ f.covers h lo inside
    | no beyond ↦ later.3 h (omega arith) hi
  ],
)

-- One round for each span, and one more, are enough.
advance-Answers :
    (rounds : ℕ) (spans : List BlockRange) (height ceiling : ℕ)
    → ceiling ≤ u64_max
    → live spans height < rounds
    → Answers spans height ceiling (advance rounds spans height ceiling)
unfolding advance
advance-Answers zero spans height ceiling top h = absurd (omega arith)
advance-Answers (suc rounds) spans height ceiling top h =
    elim (Option-cases (find (contains height) spans)) [
      | inl e ↦ elim (Bool-cases (leb height ceiling)) [
        | inl le ↦
            rw (e, advance, le)
              (
                omega arith,
                leb→le _ _ le,
                find-Clear spans height e,
                λ h lo hi. absurd (omega arith),
              )
        | inr gt ↦
            rw (e, advance, gt)
              (λ h lo hi. let above : ceiling < height = ground arith in absurd (omega arith))
      ]
      | inr (r, e) ↦
          let f = find-Found spans height r e in
          elim (Option-cases (checked_succ r.end)) [
            | inl o ↦
                rw (e, advance, o)
                  (λ h lo hi. f.covers h lo (omega (arith, checked_succ-none r.end o)))
            | inr (m, o) ↦
                rw (e, advance, o)
                  (rw (checked_succ-some r.end m o) (
                    Answers-step spans height ceiling r _ f (
                      advance-Answers rounds spans (suc r.end) ceiling top
                        (omega (arith, f.passed)))))
          ]
    ]

pub advance_past_bypass-Answers :
    (plan : RangePlan) (height ceiling : ℕ)
    → ceiling ≤ u64_max
    → Answers plan.bypass height ceiling (advance_past_bypass plan height ceiling)
unfolding advance_past_bypass
advance_past_bypass-Answers plan height ceiling top =
    advance-Answers (suc (length plan.bypass)) plan.bypass height ceiling top
      (omega (arith, live-le-length plan.bypass height))
