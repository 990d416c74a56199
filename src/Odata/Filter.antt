-- ===== src/Odata/Filter.antt =====
-- The filters of packages/app/odata-mapper/src/types.ts. A logical filter holds a list of filters,
-- so the lists are declared beside them.
use shared_ts_libs.Base.{List, String}
use shared_ts_libs.Odata.Value.{Value}

pub data ComparisonOperator : Type 0 where
  eq ne gt ge lt le : ComparisonOperator

pub data LogicalOperator : Type 0 where
  and or : LogicalOperator

pub data StringFunction : Type 0 where
  contains startswith endswith substringof tolower toupper : StringFunction

mutual
  pub data Filter : Type 0 where
    comparison : (field : String) → ComparisonOperator → (value : Value) → Filter
    in_filter not_in_filter : (field : String) → (values : List Value) → Filter
    string_function : StringFunction → (field value : String) → Filter
    logical : LogicalOperator → Filters → Filter
    not_filter : Filter → Filter

  pub data Filters : Type 0 where
    no_more : Filters
    also : Filter → Filters → Filters
