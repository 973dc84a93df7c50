-- ===== src/Uuid7/Samples.antt =====
-- A UUID v7 at a small clock.
use tactical_gateway.Base.{◌%◌, ◌^◌, ◌<◌, ◌≡◌, some, arith}
use tactical_gateway.Uuid7.{uuid7, uuid7_timestamp_ms}
use tactical_gateway.Uuid7.Layout.{uuid7_timestamp_ms-uuid7, uuid7_sorted}

uuid7_timestamp_ms-uuid7_example :
    uuid7_timestamp_ms (uuid7 1700000000000 65535 7) ≡ some (1700000000000 % 2 ^ 48)
uuid7_timestamp_ms-uuid7_example = uuid7_timestamp_ms-uuid7 1700000000000 65535 7

uuid7_sorted_example : uuid7 5 65535 7 < uuid7 6 0 0
uuid7_sorted_example = uuid7_sorted 5 6 65535 7 0 0 (omega arith) (omega arith)
