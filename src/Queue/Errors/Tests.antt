-- ===== src/Queue/Errors/Tests.antt =====
-- The bounds of a recorded error at one error.
use Prim.Native.String.{len, ◌++◌ as push_str}
use text.Mathlib.TextBridge.{IsPrefix}
use py_app_runner.Prelude.{◌≤◌, ◌<◌, String, ◌≡◌}
use py_app_runner.Queue.Errors.{fit_error, max_error_bytes, truncation_mark}
use py_app_runner.Queue.Errors.Bounds.{fit_error_bounds}

fit_error_bounds_example :
    (len "boom" ≤ max_error_bytes → fit_error "boom" ≡ "boom")
    × (max_error_bytes < len "boom"
        → (kept : String) × IsPrefix kept "boom"
          × (len kept ≤ max_error_bytes)
          × (fit_error "boom" ≡ push_str kept truncation_mark))
    × (len (fit_error "boom") ≤ 60014)
fit_error_bounds_example = fit_error_bounds "boom"
