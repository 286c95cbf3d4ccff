-- ===== src/ChainApi/Adapter.antt =====
-- crates/chain-api/src/adapter.rs: what the trait ChainAdapter does where an adapter does not say
-- otherwise. An adapter is its answers.
use superquery_node.Common.{Result, ok, ◌>>=◌, >>=-eq-ok, String, ℕ, ◌≡◌, List, [], ◌∷◌, map, arith}
use superquery_node.ChainApi.Error.{ChainError}
use superquery_node.ChainApi.Block.{GenericBlock}

-- The name of the chain, from the identifier of the network.
unfoldable pub chain_name : String → String
chain_name network_id = network_id

unfoldable pub block_interval_ms : ℕ
block_interval_ms = 12000

-- One block after the other; the first that fails ends it.
unfoldable pub fetch_blocks :
    {B : Type 0}
    → (ℕ → Result ChainError (GenericBlock B))
    → List ℕ
    → Result ChainError (List (GenericBlock B))
fetch_blocks fetch_block [] = ok []
fetch_blocks fetch_block (h ∷ heights) = do
  block ← fetch_block h
  out ← fetch_blocks fetch_block heights
  ok (block ∷ out)

-- If every answer has the height asked for, the blocks have the heights asked for, in their order.
pub fetch_blocks-heights :
    {B : Type 0} (fetch_block : ℕ → Result ChainError (GenericBlock B)) (heights : List ℕ)
    (blocks : List (GenericBlock B))
    → ((h : ℕ) (b : GenericBlock B) → fetch_block h ≡ ok b → b.header.height ≡ h)
    → fetch_blocks fetch_block heights ≡ ok blocks
    → map (λ b. b.header.height) blocks ≡ heights
unfolding fetch_blocks
fetch_blocks-heights fetch_block [] blocks right e =
    let same : [] ≡ blocks = ground (arith, e) in rw (← same)
fetch_blocks-heights fetch_block (h ∷ heights) blocks right e =
    let (b, first, rest) = >>=-eq-ok (fetch_block h) _ e in
    let (out, others, last) = >>=-eq-ok (fetch_blocks fetch_block heights) _ rest in
    let same : (b ∷ out) ≡ blocks = ground (arith, last) in
    rw (← same, right h b first, fetch_blocks-heights fetch_block heights out right others)
