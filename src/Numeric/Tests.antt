-- ===== src/Numeric/Tests.antt =====
-- Runs of the stores and loads of numeric.h.
use tinydtls.Base.{Bytes, IsBytes, [], arith, ◌%◌, ◌++◌, ◌^◌, ◌∷◌, ◌≡◌}
use tinydtls.Numeric.{
  int_to_uint8, int_to_uint16, int_to_uint24, int_to_uint32, int_to_uint48, int_to_uint64,
  uint8_to_int, uint16_to_int, uint24_to_int, uint32_to_int, uint48_to_int, uint64_to_int,
}
use tinydtls.Numeric.RoundTrip.{uint_to_int-int_to_uint}

abbrev stored : Bytes
stored = 1 ∷ 2 ∷ 3 ∷ 4 ∷ 5 ∷ 6 ∷ 7 ∷ 255 ∷ []

uint_to_int-int_to_uint_example :
    (uint8_to_int (int_to_uint8 70000 ++ stored) ≡ 70000 % 2 ^ 8)
    × (uint16_to_int (int_to_uint16 70000 ++ stored) ≡ 70000 % 2 ^ 16)
    × (uint24_to_int (int_to_uint24 70000 ++ stored) ≡ 70000 % 2 ^ 24)
    × (uint32_to_int (int_to_uint32 70000 ++ stored) ≡ 70000 % 2 ^ 32)
    × (uint48_to_int (int_to_uint48 70000 ++ stored) ≡ 70000 % 2 ^ 48)
    × (uint64_to_int (int_to_uint64 70000 ++ stored) ≡ 70000 % 2 ^ 64)
uint_to_int-int_to_uint_example = uint_to_int-int_to_uint 70000 stored

stored-IsBytes : IsBytes stored
stored-IsBytes = (
  omega arith,
  (
    omega arith,
    (omega arith, (omega arith, (omega arith, (omega arith, (omega arith, (omega arith, tt)))))),
  ),
)
