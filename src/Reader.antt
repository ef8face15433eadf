-- ===== src/Reader.antt =====
-- `io.Reader`, `io.LimitReader` and reading to the end (`io.Copy` into a hash, `io.ReadAll`).
-- A nil reader is `none` of `Option Reader` where the source tests for it.
use sigmaproof.Prelude.{ℕ, length, take, leb, if◌then◌else◌, ok, err}
use sigmaproof.Bytes.{Bytes}
use sigmaproof.Errors.{Outcome, read_failed}

-- A stream that gives its bytes and then ends, or gives its bytes and then an error.
pub data Reader : Type 0 where
  stream : Bytes → Reader
  broken : Bytes → Reader

-- Reading `io.LimitReader(r, limit)` to the end. An error behind the limit is not met;
-- the error comes in a read of its own, after the last byte.
unfoldable pub read_limited : Reader → ℕ → Outcome Bytes
read_limited (stream b) limit = ok (take limit b)
read_limited (broken b) limit = if leb limit (length b) then ok (take limit b) else err read_failed
