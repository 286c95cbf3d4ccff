-- ===== src/Core/Finality/Reorg/Highest.antt =====
-- The search of crates/core/src/finality/reorg.rs on what it is documented to be given: comparisons
-- of consecutive heights, highest first.
use superquery_node.Common.{
  length, length-append, All, All-append, All-weaken, option_str_eq_iff, ℕ, suc, ◌+◌, ◌≤◌, ◌<◌, ◌≡◌,
  refl, sym, ap, ◌∙◌, subst, ◌≢◌, inl, inr, true, false, some, List, [], ◌∷◌, ◌++◌, map, arith,
}
use superquery_node.Core.Finality.Reorg.{
  canonical, rewind, beyond_history, HeightComparison, ReorgDecision, find_common_ancestor, matches,
}
use superquery_node.ChainApi.Block.{BlockPtr}
use superquery_node.Core.Finality.Reorg.Ancestor.{Decides, block_at, find_common_ancestor-Decides}

-- Each height is one below that before it.
abbrev pub IsDescending : List HeightComparison → Type 0
IsDescending [] = Unit
IsDescending (c ∷ []) = Unit
IsDescending (c ∷ d ∷ rest) = (c.height ≡ suc d.height) × IsDescending (d ∷ rest)

-- The chain has the recorded hash at this height, and at no height of the list above it.
abbrev pub IsHighest : List HeightComparison → BlockPtr → Type 0
IsHighest comparisons ancestor =
    ((above : List HeightComparison) × (c : HeightComparison) × (below : List HeightComparison)
      × (comparisons ≡ above ++ c ∷ below)
      × (c.height ≡ ancestor.height)
      × (c.stored_hash ≡ ancestor.hash)
      × (c.canonical_hash ≡ some ancestor.hash))
    × All (λ c. (c.canonical_hash ≡ some c.stored_hash → c.height ≤ ancestor.height)) comparisons

-- No record of the list agrees with the chain.
abbrev pub NoneAgree : List HeightComparison → Type 0
NoneAgree = All (λ c. c.canonical_hash ≢ some c.stored_hash)

-- What a decision says of the heights, from the tip's down.
abbrev pub Finds : List HeightComparison → ReorgDecision → Type 0
Finds [] decision = decision ≡ canonical
Finds (tip ∷ rest) canonical = tip.canonical_hash ≡ some tip.stored_hash
Finds (tip ∷ rest) (rewind ancestor depth) =
    IsHighest (tip ∷ rest) ancestor × (ancestor.height + depth ≡ tip.height) × (0 < depth)
Finds (tip ∷ rest) (beyond_history oldest_known) =
    NoneAgree (tip ∷ rest) × (oldest_known + length rest ≡ tip.height)

abbrev itself : HeightComparison → HeightComparison
itself c = c

map-itself : (cs : List HeightComparison) → map itself cs ≡ cs
map-itself [] = refl
map-itself (c ∷ cs) = ap (λ t. c ∷ t) (map-itself cs)

matches-true : (c : HeightComparison) → matches c ≡ true → c.canonical_hash ≡ some c.stored_hash
unfolding matches
matches-true c e = (option_str_eq_iff c.canonical_hash (some c.stored_hash)).0 e

matches-false : (c : HeightComparison) → matches c ≡ false → c.canonical_hash ≢ some c.stored_hash
unfolding matches
matches-false c e same =
    let agree = (option_str_eq_iff c.canonical_hash (some c.stored_hash)).1 same in
    let wrong : false ≡ true = sym e ∙ agree in cc

-- The height of the first comparison.
abbrev top_of : List HeightComparison → ℕ
top_of [] = 0
top_of (c ∷ cs) = c.height

IsDescending-tail :
    (c : HeightComparison) (cs : List HeightComparison) → IsDescending (c ∷ cs) → IsDescending cs
IsDescending-tail c [] d = tt
IsDescending-tail c (e ∷ cs) d = d.1

IsDescending-suffix :
    (above cs : List HeightComparison) → IsDescending (above ++ cs) → IsDescending cs
IsDescending-suffix [] cs d = d
IsDescending-suffix (c ∷ above) cs d =
    IsDescending-suffix above cs (IsDescending-tail c (above ++ cs) d)

-- Heights fall by one at each step.
top_of-append :
    (above : List HeightComparison) (c : HeightComparison) (below : List HeightComparison)
    → IsDescending (above ++ c ∷ below)
    → top_of (above ++ c ∷ below) ≡ c.height + length above
top_of-append [] c below d = omega arith
top_of-append (a ∷ []) c below d = omega (arith, d.0)
top_of-append (a ∷ b ∷ above) c below d = omega (arith, d.0, top_of-append (b ∷ above) c below d.1)

below_All :
    (c : HeightComparison) (below : List HeightComparison)
    → IsDescending (c ∷ below)
    → All (λ d. d.height ≤ c.height) below
below_All c [] d = tt
below_All c (e ∷ below) d = (
  omega (arith, d.0),
  All-weaken _ _ below (λ x h. omega (arith, h, d.0)) (below_All e below d.1),
)

Finds-rewind :
    (cs above : List HeightComparison) (shared : HeightComparison) (below : List HeightComparison)
    → IsDescending cs
    → cs ≡ above ++ shared ∷ below
    → All (λ c. matches c ≡ false) above
    → matches shared ≡ true
    → IsHighest cs (block_at itself shared) × (shared.height + length above ≡ top_of cs)
Finds-rewind cs above shared below d split others same =
    let falls = subst IsDescending split d in
    let there = matches-true shared same in
    let low = below_All shared below (IsDescending-suffix above (shared ∷ below) falls) in
    rw split (
      (
        (above, shared, below, refl, refl, refl, there),
        All-append _ above (shared ∷ below)
            (All-weaken _ _ above (λ c other agree. absurd (matches-false c other agree)) others)
            ((λ agree. omega arith), All-weaken _ _ below (λ c h agree. h) low),
      ),
      sym (top_of-append above shared below falls),
    )

Finds-Decides :
    (cs : List HeightComparison) (decision : ReorgDecision)
    → IsDescending cs
    → Decides itself cs decision
    → Finds cs decision
Finds-Decides [] canonical d h = refl
Finds-Decides [] (rewind ancestor depth) d ([], shared, below, split, o, s, a, c, p) = cc
Finds-Decides [] (rewind ancestor depth) d (b ∷ above, shared, below, split, o, s, a, c, p) = cc
Finds-Decides [] (beyond_history oldest) d ([], o, split, a, b) = cc
Finds-Decides [] (beyond_history oldest) d (c ∷ above, o, split, a, b) = cc
Finds-Decides (tip ∷ rest) canonical d (inl none_there) = cc
Finds-Decides (tip ∷ rest) canonical d (inr (t, r, split, same)) =
    let one : tip ≡ t = cc in rw one (matches-true t same)
Finds-Decides (tip ∷ rest) (rewind ancestor depth) d
      (above, shared, below, split, others, same, at, counts, positive) =
    let (highest, height) = Finds-rewind (tip ∷ rest) above shared below d split others same in
    (subst (IsHighest (tip ∷ rest)) (sym at) highest, rw (at, counts) height, positive)
Finds-Decides (tip ∷ rest) (beyond_history oldest_known) d (above, oldest, split, others, at) =
    let falls = top_of-append above oldest [] (subst IsDescending split d) in
    let top = ap top_of split in
    let count = ap length split ∙ length-append above (oldest ∷ []) in
    (All-weaken _ _ (tip ∷ rest) matches-false others, omega (arith, top, falls, count, at))

-- On comparisons of consecutive heights, highest first, the search finds the highest height whose
-- record the chain still has, if that is not the tip's, with the number of heights above it; none if
-- the tip's record stands or nothing is recorded; and, if no record stands, the lowest height.
pub find_common_ancestor-Finds :
    (comparisons : List HeightComparison)
    → IsDescending comparisons
    → Finds comparisons (find_common_ancestor comparisons)
find_common_ancestor-Finds comparisons d =
    Finds-Decides comparisons (find_common_ancestor comparisons) d (
      subst (λ cs. Decides itself comparisons (find_common_ancestor cs)) (map-itself comparisons)
        (find_common_ancestor-Decides itself comparisons))
