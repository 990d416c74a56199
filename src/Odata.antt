-- ===== src/Odata.antt =====
-- packages/app/odata-mapper: from the parser's untyped tree to filters, and from filters to values.
pub mod Value
pub mod Filter
pub mod Bind
pub mod Transform
pub mod Tree
pub mod Extract
pub mod Collect
pub mod FieldNames
pub mod FilterMap
pub mod Meaning
pub mod Bounds
pub mod Operands
pub mod Query
mod Tests
