-- ===== src/Query.antt =====
-- The query engine of matrixone/execution/homework/pkg: columns, expressions and projections.
pub mod Reply
pub mod Util
pub mod Types
pub mod Value
pub mod Columns
pub mod Overload
pub mod Extend
pub mod Relation
pub mod Projection
pub mod Print
