-- ===== src/EventSourcing/Version.antt =====
-- internal/pkg/es/models/stream_version/expected_stream_version.go and stream_position/: stream
-- versions and positions. All are `int64` in the source, and bit patterns here.
use go_ecommerce_microservic.Common.{ℕ, Bool, ◌==◌}
use go_ecommerce_microservic.Common.Word64.{minus, add64}

abbrev pub ExpectedStreamVersion : Type 0
ExpectedStreamVersion = ℕ

abbrev pub no_stream : ExpectedStreamVersion
no_stream = minus 1

abbrev pub any : ExpectedStreamVersion
any = minus 2

abbrev pub stream_exists : ExpectedStreamVersion
stream_exists = minus 3

abbrev pub is_no_stream : ExpectedStreamVersion → Bool
is_no_stream e = e == no_stream

abbrev pub is_any : ExpectedStreamVersion → Bool
is_any e = e == any

abbrev pub is_stream_exists : ExpectedStreamVersion → Bool
is_stream_exists e = e == stream_exists

abbrev pub next : ExpectedStreamVersion → ExpectedStreamVersion
next e = add64 e 1

abbrev pub StreamReadPosition : Type 0
StreamReadPosition = ℕ

abbrev pub start : StreamReadPosition
start = 0

abbrev pub end : StreamReadPosition
end = minus 1

abbrev pub is_end : StreamReadPosition → Bool
is_end e = e == end

abbrev pub is_start : StreamReadPosition → Bool
is_start e = e == start

abbrev pub StreamTruncatePosition : Type 0
StreamTruncatePosition = ℕ
