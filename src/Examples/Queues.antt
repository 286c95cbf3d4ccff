-- ===== src/Examples/Queues.antt =====
-- A channel that meets the assumptions of the queue, and the dispatcher's hand-over.
use superquery_node.Common.{
  length, ℕ, suc, ◌+◌, ◌≡◌, refl, Option, none, some, List, [], ◌∷◌, arith,
}
use superquery_node.Core.Indexer.{untouched}
use superquery_node.Dispatcher.Queue.{Channel, QueuedBlock}
use superquery_node.Dispatcher.{next_expected, WorkerOutput, TokioDispatcher, take_committable}
use superquery_node.Dispatcher.Commits.{IsSound, InOrder, take_committable-InOrder}

record Slots : Type 0 where
  queued : List (QueuedBlock ℕ)
  open_slots : ℕ

abbrev receive : List (QueuedBlock ℕ) → ℕ → Option (QueuedBlock ℕ × Slots)
receive [] n = none
receive (b ∷ bs) n = some (b, record { queued = bs; open_slots = suc n })

receive-none : (bs : List (QueuedBlock ℕ)) (n : ℕ) → receive bs n ≡ none → bs ≡ []
receive-none [] n e = refl
receive-none (b ∷ bs) n e = cc

receive-some :
    (bs : List (QueuedBlock ℕ)) (n : ℕ) (t : Slots) (b : QueuedBlock ℕ)
    → receive bs n ≡ some (b, t)
    → (bs ≡ b ∷ t.queued) × (t.open_slots + length t.queued ≡ n + length bs)
receive-some [] n t b e = cc
receive-some (c ∷ bs) n t b e = ground arith

abbrev slots : Channel ℕ
slots = record {
  State = Slots;
  contents = λ s. s.queued;
  max_capacity = λ s. s.open_slots + length s.queued;
  capacity = λ s. s.open_slots;
  try_recv = λ s. receive s.queued s.open_slots;
  occupancy = λ s. refl;
  try_recv-none = λ s e. receive-none s.queued s.open_slots e;
  try_recv-some = λ s t b e. receive-some s.queued s.open_slots t b e;
}

abbrev two_queued : Slots
two_queued = record {
  queued = record { height = 100; block = 1 } ∷ record { height = 101; block = 2 } ∷ [];
  open_slots = 2;
}

abbrev output : ℕ → WorkerOutput ℕ ℕ
output h = record { height = h; processed = untouched }

abbrev dispatcher : TokioDispatcher ℕ ℕ
dispatcher = record {
  limits = record { queue_capacity = 200; workers = 4; reorder_capacity = 8 };
  buffer = record {
    next_expected = 100;
    pending = (101, output 101) ∷ [];
    capacity = 8;
    generation = 0;
  };
}

dispatcher-IsSound : IsSound dispatcher
dispatcher-IsSound = record {
  valid = record { ahead = omega arith; bounded = omega arith };
  filed = (refl, tt);
}

take_committable-InOrder_example :
    InOrder 100
      (take_committable dispatcher 0 (output 100)).1
      (next_expected (take_committable dispatcher 0 (output 100)).0)
    × IsSound (take_committable dispatcher 0 (output 100)).0
unfolding next_expected
take_committable-InOrder_example =
    take_committable-InOrder dispatcher 0 (output 100) dispatcher-IsSound (omega arith)
