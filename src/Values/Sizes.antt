-- ===== src/Values/Sizes.antt =====
-- How large an encoded value is that fits.
use neorc.Prelude.{ℕ, ◌≤◌, ◌≡◌, inl, inr, some, Option-cases, arith}
use neorc.Errors.{ok}
use neorc.Json.{Text}
use neorc.Values.{utf8_length, ensure_fits}

pub ensure_fits_bounds :
    (encoded : Text) (limit : ℕ)
    → ensure_fits encoded limit ≡ ok tt
    → (size : ℕ) × (utf8_length encoded ≡ some size) × (size ≤ limit)
unfolding ensure_fits
ensure_fits_bounds encoded limit h = elim (Option-cases (utf8_length encoded)) [
  | inl lone ↦ absurd (ground arith)
  | inr (size, known) ↦ (size, known, ground arith)
]
