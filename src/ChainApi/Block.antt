-- ===== src/ChainApi/Block.antt =====
-- crates/chain-api/src/block.rs: block identity. A hash is its text, and a timestamp the number of
-- seconds since the epoch.
use superquery_node.Common.{
  ◌==◌, checked_succ, str_eq_iff, option_str_eq, option_str_eq_iff, String, str_eq, ℕ, suc, ◌≡◌,
  ◌↔◌, Bool, true, false, ◌&&◌, Option, none, some, arith,
}

pub record BlockPtr : Type 0 where
  pub height : ℕ
  pub hash : String

pub record Header : Type 0 where
  pub height : ℕ
  pub hash : String
  pub parent_hash : Option String
  pub timestamp : Option ℕ

unfoldable pub ptr : Header → BlockPtr
ptr header = record { height = header.height; hash = header.hash }

abbrev option_eq : Option ℕ → Option ℕ → Bool
option_eq none none = true
option_eq none (some n) = false
option_eq (some m) none = false
option_eq (some m) (some n) = m == n

-- `Some(self.height) == parent.height.checked_add(1) && …`
unfoldable pub is_child_of : Header → Header → Bool
unfolding checked_succ
is_child_of header parent =
    option_eq (some header.height) (checked_succ parent.height)
    && option_str_eq header.parent_hash (some parent.hash)

-- The derived `PartialEq` of `Header`.
unfoldable pub header_eq : Header → Header → Bool
header_eq a b =
    a.height == b.height
    && str_eq a.hash b.hash
    && option_str_eq a.parent_hash b.parent_hash
    && option_eq a.timestamp b.timestamp

pub header_eq_iff : (a b : Header) → (header_eq a b ≡ true) ↔ (a ≡ b)
unfolding header_eq
header_eq_iff a b = (
  (λ e. ground (arith, str_eq_iff a.hash b.hash, option_str_eq_iff a.parent_hash b.parent_hash)),
  (λ e. ground (arith, str_eq_iff a.hash b.hash, option_str_eq_iff a.parent_hash b.parent_hash)),
)

-- A verified link: the next height, and the parent's hash. At u64::MAX there is no child.
pub is_child_of-true :
    (header parent : Header)
    → is_child_of header parent ≡ true
    → (header.height ≡ suc parent.height) × (header.parent_hash ≡ some parent.hash)
unfolding is_child_of
is_child_of-true header parent e =
    ground (arith, option_str_eq_iff header.parent_hash (some parent.hash))

pub data FinalityState : Type 0 where
  unfinalized final : FinalityState

pub record GenericBlock (B : Type 0) : Type 0 where
  pub header : Header
  pub inner : B
