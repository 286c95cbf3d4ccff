-- ===== src/Core/Project/DataSource.antt =====
-- crates/core/src/project/datasource.rs: data sources. The parameters of a dynamic source are JSON,
-- a text here.
use superquery_node.Common.{
  leb, keep, String, ℕ, Bool, true, false, ◌&&◌, Option, none, some, List, map,
}
use superquery_node.ChainApi.Filter.{HandlerKind, Filter, block, transaction, event}

pub data DataSourceOrigin : Type 0 where
  static_origin : DataSourceOrigin
  dynamic_origin : String → ℕ → DataSourceOrigin

pub record Handler (P : Type 0) : Type 0 where
  pub function : String
  pub kind : HandlerKind
  pub filter : Filter P

pub record DataSource (P : Type 0) : Type 0 where
  pub name : String
  pub start_height : ℕ
  pub end_height : Option ℕ
  pub handlers : List (Handler P)
  pub origin : DataSourceOrigin

pub record DynamicDataSource : Type 0 where
  pub template : String
  pub start_height : ℕ
  pub parameters : String

unfoldable pub is_active_at : {P : Type 0} → DataSource P → ℕ → Bool
is_active_at source height =
    leb source.start_height height
    && elim source.end_height [ none ↦ true | some end ↦ leb height end ]

abbrev kind_eq : HandlerKind → HandlerKind → Bool
kind_eq block block = true
kind_eq transaction transaction = true
kind_eq event event = true
kind_eq _ _ = false

unfoldable pub filters_for : {P : Type 0} → DataSource P → HandlerKind → List (Filter P)
filters_for source kind = map (λ h. h.filter) (keep (λ h. kind_eq h.kind kind) source.handlers)
