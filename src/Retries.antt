-- ===== src/Retries.antt =====
-- `retry.RetryOnConflict` of client-go, which the evictions and the machine controller call.
use machine_controller_k0s.Prelude.{◌≡◌}
use machine_controller_k0s.Api.{conflict, api, Result, err}

-- The results that repeated calls may end with: each call before the last one met a conflict.
pub data Retried {S : Type 0} (f : S → Result {0} Unit × S) : S → Result {0} Unit × S → Type 0 where
  last : (s : S) → Retried f s (f s)
  again :
      (s : S) {r : Result {0} Unit × S}
      → (f s).0 ≡ err (api conflict)
      → Retried f (f s).1 r
      → Retried f s r

pub record Retries : Type 1 where
  -- the function is called again, up to the limit of the backoff, as long as it meets a conflict
  pub retry_on_conflict : {S : Type 0} → (S → Result {0} Unit × S) → S → Result {0} Unit × S
  pub retry_on_conflict-Retried :
      {S : Type 0} (f : S → Result {0} Unit × S) (s : S) → Retried f s (retry_on_conflict f s)
