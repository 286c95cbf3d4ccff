-- ===== src/Examples/Dispatch.antt =====
-- The dispatcher and its parts on the inputs of the unit tests of crates/dispatcher.
use mathlib.Core.List.{Permᴰ}
use superquery_node.Common.{
  wrapping_succ, insert, lookup, remove, ℕ, ◌≡◌, refl, List, [], ◌∷◌, arith,
}
use superquery_node.Dispatcher.OrderedCommit.{
  OrderedCommitBuffer, new, complete, complete_from, reset_to,
}
use superquery_node.Dispatcher.OrderedCommit.Release.{prefix}
use superquery_node.Dispatcher.OrderedCommit.Contract.{IsValid, complete_from-IsValid}
use superquery_node.Dispatcher.OrderedCommit.History.{commit_all, deliver, commit_all-deliver}
use superquery_node.Dispatcher.OrderedCommit.Reordering.{commit_all-perm}
use superquery_node.Dispatcher.OrderedCommit.Generations.{
  Work, complete_work, complete_work-keep, reset_to-inert,
}

abbrev empty_buffer : OrderedCommitBuffer ℕ
empty_buffer = record { next_expected = 100; pending = []; capacity = 16; generation = 3 }

-- 103 and 101 wait for 100.
abbrev waiting : OrderedCommitBuffer ℕ
waiting = record empty_buffer { pending = (101, 7) ∷ (103, 9) ∷ [] }

waiting-IsValid : IsValid waiting
waiting-IsValid = record { ahead = omega arith; bounded = omega arith }

program : Unit {0}
unfolding complete_from insert lookup remove wrapping_succ commit_all complete new deliver prefix
    reset_to complete_work
program = tt

-- 100 arrives and unblocks 101.
complete_from_test : (complete_from waiting 3 100 5).1 ≡ (100, 5) ∷ (101, 7) ∷ []
unfolding program
complete_from_test = refl

complete_from-IsValid_example : IsValid (complete_from waiting 3 100 5).0
complete_from-IsValid_example = complete_from-IsValid waiting 3 100 5 waiting-IsValid (omega arith)

abbrev shuffled : List (ℕ × ℕ)
shuffled = (103, 3) ∷ (101, 1) ∷ (100, 0) ∷ (102, 2) ∷ []

abbrev ordered : List (ℕ × ℕ)
ordered = (101, 1) ∷ (103, 3) ∷ (100, 0) ∷ (102, 2) ∷ []

commit_all_test :
    commit_all (new 100 16) shuffled ≡ ((100, 0) ∷ (101, 1) ∷ (102, 2) ∷ (103, 3) ∷ [], 104, [])
unfolding program
commit_all_test = refl

commit_all-deliver_example : commit_all (new 100 16) shuffled ≡ prefix 100 (deliver 100 [] shuffled)
commit_all-deliver_example = commit_all-deliver 100 16 shuffled (omega arith)

commit_all-perm_example : commit_all (new 100 16) shuffled ≡ commit_all (new 100 16) ordered
commit_all-perm_example = commit_all-perm 100 16 (Permᴰ.swap refl refl) (omega arith) (omega arith)

abbrev stale_work : List (Work ℕ)
stale_work = record { generation = 2; height = 100; value = 8 } ∷ []

complete_work-keep_example : complete_work waiting stale_work ≡ complete_work waiting []
complete_work-keep_example = complete_work-keep waiting stale_work

reset_to-inert_example :
    complete_work (reset_to waiting 90).0 stale_work
    ≡ (record waiting { next_expected = 90; pending = []; generation = 4 }, [])
reset_to-inert_example = reset_to-inert waiting 90 stale_work (omega arith) (omega arith)
