-- ===== src/Store/Error.antt =====
-- crates/store/src/error.rs. The driver's error is a text here.
use superquery_node.Common.{String}

pub data StoreError : Type 0 where
  postgres pool invalid_identifier schema unsupported_type unknown_entity decode metadata_conflict :
      String → StoreError
