-- ===== src/Dispatcher/Queue.antt =====
-- crates/dispatcher/src/queue.rs: the wrapper over a bounded tokio channel. The channel is tokio's:
-- its receiving side is the parameter below, with the documented behaviour of `try_recv` and of
-- `capacity` (the free slots while no permit is reserved).
use superquery_node.Common.{
  ◌==◌, Option-cases, length, ℕ, zero, suc, ◌+◌, ◌-◌, ◌<◌, ◌≡◌, ap, inl, inr, Bool, Option, none,
  some, List, [], ◌∷◌, arith,
}

pub record QueuedBlock (B : Type 0) : Type 0 where
  pub height : ℕ
  pub block : B

pub record Channel (B : Type 0) : Type 1 where
  pub State : Type 0
  pub contents : State → List (QueuedBlock B)
  pub max_capacity : State → ℕ
  pub capacity : State → ℕ
  pub try_recv : State → Option (QueuedBlock B × State)
  -- A slot is free or holds a message.
  pub occupancy : (s : State) → capacity s + length (contents s) ≡ max_capacity s
  pub try_recv-none : (s : State) → try_recv s ≡ none → contents s ≡ []
  pub try_recv-some :
      (s t : State) (b : QueuedBlock B)
      → try_recv s ≡ some (b, t)
      → (contents s ≡ b ∷ contents t) × (max_capacity t ≡ max_capacity s)

module _ {B : Type 0} (channel : Channel B) where
  open channel use {
    State, contents, max_capacity, capacity, try_recv, occupancy, try_recv-none, try_recv-some,
  }

  unfoldable pub depth : State → ℕ
  depth s = max_capacity s - capacity s

  unfoldable pub free : State → ℕ
  free s = capacity s

  unfoldable pub is_full : State → Bool
  is_full s = capacity s == 0

  -- The `while` loop of `drain`, with one round for each slot of the channel and one more.
  drain_loop : ℕ → State → ℕ → State × ℕ
  drain_loop zero s dropped = (s, dropped)
  drain_loop (suc fuel) s dropped = elim (try_recv s) [
    | none ↦ (s, dropped)
    | some (_, t) ↦ drain_loop fuel t (suc dropped)
  ]

  unfoldable pub drain : State → State × ℕ
  unfolding drain_loop
  drain s = drain_loop (suc (max_capacity s)) s 0

  pub depth-length : (s : State) → depth s ≡ length (contents s)
  unfolding depth
  depth-length s = omega (arith, occupancy s)

  drain_loop_lem :
      (fuel : ℕ) (s : State) (dropped : ℕ)
      → length (contents s) < fuel
      → (contents (drain_loop fuel s dropped).0 ≡ [])
        × ((drain_loop fuel s dropped).1 ≡ dropped + length (contents s))
  unfolding drain_loop
  drain_loop_lem zero s dropped h = absurd (omega arith)
  drain_loop_lem (suc fuel) s dropped h = elim (Option-cases (try_recv s)) [
    | inl e ↦ let empty = try_recv-none s e in rw (e, drain_loop) (empty, rw empty (omega arith))
    | inr ((b, t), e) ↦
        let more = (try_recv-some s t b e).0 in
        let shorter : length (contents s) ≡ suc (length (contents t)) = ap length more in
        let (gone, count) = drain_loop_lem fuel t (suc dropped) (omega arith) in
        rw (e, drain_loop) (gone, omega arith)
  ]

  -- `drain` empties the queue and reports the depth it had: its loop ends with the queue, before
  -- the fuel does.
  pub drain-depth : (s : State) → (contents (drain s).0 ≡ []) × ((drain s).1 ≡ depth s)
  unfolding drain
  drain-depth s =
      let (gone, count) = drain_loop_lem (suc (max_capacity s)) s 0 (omega (arith, occupancy s)) in
      (gone, omega (arith, depth-length s))
