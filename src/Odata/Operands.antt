-- ===== src/Odata/Operands.antt =====
-- How the transformer reads the operands of comparisons, `in` and string functions.
use shared_ts_libs.Base.{true, false, ◌≡◌, refl, arith, ◌&&◌}
use shared_ts_libs.Odata.Value.{Value, Host}
use shared_ts_libs.Odata.Filter.{ComparisonOperator, StringFunction}
use shared_ts_libs.Odata.Bind.{Binds, is_bind_reference}
use shared_ts_libs.Odata.Transform.{
  is_field_reference, transform_comparison, transform_string_function,
}

-- A comparison with its field on the right becomes the same filter as the one with its operands
-- exchanged: the operator is kept, so `5 gt price` is read as `price gt 5`.
pub transform_comparison-swap :
    (host : Host) (binds : Binds) (op : ComparisonOperator) (field v node : Value)
    → is_field_reference field ≡ true
    → is_field_reference v ≡ false
    → transform_comparison host binds op v field node
      ≡ transform_comparison host binds op field v node
unfolding transform_comparison
transform_comparison-swap host binds op field v node hf hv = rw (hf, hv) refl

-- A string function reads (field, value) and (value, field) alike, whatever the function, where
-- neither operand is both a field and a bind reference.
pub transform_string_function-swap :
    (host : Host) (binds : Binds) (f : StringFunction) (a b node : Value)
    → (is_field_reference a && is_bind_reference a) ≡ false
    → (is_field_reference b && is_bind_reference b) ≡ false
    → transform_string_function host binds f a b node
      ≡ transform_string_function host binds f b a node
unfolding transform_string_function
transform_string_function-swap host binds f a b node ha hb = ground arith
