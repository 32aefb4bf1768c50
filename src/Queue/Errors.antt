-- ===== src/Queue/Errors.antt =====
-- `fit_error` of src/py_app_runner/queue/driver_pg.py, which driver_redis.py has once more.
-- `len` counts the bytes of a text's UTF-8, and `slice e 0 n` keeps the characters that lie whole in
-- its first n bytes, as `raw[:n].decode("utf-8", errors="ignore")` does.
pub mod Bounds
mod Tests
use Prim.Native.String.{len, slice, ◌++◌ as push_str}
use py_app_runner.Prelude.{ℕ, String, leb, if◌then◌else◌}

abbrev pub max_error_bytes : ℕ
max_error_bytes = 60000

abbrev pub truncation_mark : String
truncation_mark = "\n... truncated"

unfoldable pub fit_error : String → String
fit_error error =
    if leb (len error) max_error_bytes
    then error
    else push_str (slice error 0 max_error_bytes) truncation_mark
