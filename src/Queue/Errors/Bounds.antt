-- ===== src/Queue/Errors/Bounds.antt =====
-- The size of a recorded error.
use Prim.Native.Char.{Char, len_utf8}
use Prim.Native.String.{len, slice, fits, ◌++◌ as push_str, [] as end, ◌∷◌ as char}
use Prim.Native.String.slice as slice_laws
use Prim.Native.String.len as len_laws
use text.Mathlib.TextBridge.{IsPrefix}
use text.Mathlib.TextEquality.{slice-prefix}
use text.Mathlib.TextPositions.{len-append}
use Prim.Native.Nat.{compare, Ordering}
use py_app_runner.Prelude.{
  ℕ, ◌-◌, ◌≤◌, ◌<◌, String, ◌≡◌, refl, inl, inr, arith, leb, leb→le, leb-false→lt, Bool-cases,
}
use py_app_runner.Queue.Errors.{fit_error, max_error_bytes, truncation_mark}

-- A character is taken only if it ends in the bound.
len-fits :
    (o : Ordering) (c : Char) (r : String) (n : ℕ)
    → compare (len_utf8 c) n ≡ o
    → len r ≤ n - len_utf8 c
    → len (fits o c r) ≤ n
len-fits Ordering.lt c r n e h = rw len_laws.cons (ground arith)
len-fits Ordering.eq c r n e h = rw len_laws.cons (ground arith)
len-fits Ordering.gt c r n e h = rw len_laws.nil (omega arith)

len-slice-le : (s : String) (n : ℕ) → len (slice s 0 n) ≤ n
len-slice-le end n = rw (slice_laws.nil, len_laws.nil) (omega arith)
len-slice-le (char c s) n = rw slice_laws.cons-zero (
    len-fits (compare (len_utf8 c) n) c (slice s 0 (n - len_utf8 c)) n refl
      (len-slice-le s (n - len_utf8 c)))

-- An error of at most 60000 bytes is recorded as it is. A longer one is cut to a prefix of at most
-- 60000 bytes with the mark behind it. Either way the record has at most 60014 bytes.
pub fit_error_bounds :
    (error : String)
    → (len error ≤ max_error_bytes → fit_error error ≡ error)
      × (max_error_bytes < len error
          → (kept : String) × IsPrefix kept error
            × (len kept ≤ max_error_bytes)
            × (fit_error error ≡ push_str kept truncation_mark))
      × (len (fit_error error) ≤ 60014)
unfolding fit_error
fit_error_bounds error =
    let cut = slice error 0 max_error_bytes in
    elim (Bool-cases (leb (len error) max_error_bytes)) [
      | inl e ↦ rw e (
        (λ _. refl),
        (λ h. absurd (omega (arith, leb→le _ _ e))),
        omega (arith, leb→le (len error) max_error_bytes e),
      )
      | inr e ↦ rw e (
        (λ h. absurd (omega (arith, leb-false→lt _ _ e))),
        (λ _. (cut, slice-prefix error max_error_bytes, len-slice-le error max_error_bytes, refl)),
        rw (len-append cut truncation_mark) (omega (arith, len-slice-le error max_error_bytes)),
      )
    ]
