-- ===== src/Agent/Failures.antt =====
-- The errors of integrations/paperless/agent. What the fetcher, the ingester and the event source
-- return is only passed on: `other` holds its text.
use sigmaproof.Prelude.{ℕ, Result}
use sigmaproof.Bytes.{Bytes}

pub data Failure : Type 0 where
  invalid_event not_configured version_changed missing_document : Failure
  -- `ErrOversizedFetch`, with the limit of its message
  oversized_fetch : ℕ → Failure
  document_read_failed reconciler_not_configured : Failure
  webhook_not_configured webhook_signature webhook_body : Failure
  other : Bytes → Failure

abbrev pub Attempt : Type 0 → Type 0
Attempt = Result Failure
