-- ===== src/Errors.antt =====
-- app/errors.py, and the other exceptions that the modelled code raises or relies on. Messages and
-- details are left out.
use vof_backend.Prelude.{ℕ}

pub data Error : Type 0 where
  not_found forbidden validation conflict upstream : Error
  unauthenticated : Error
  manager_conflict integrity key_error runtime_error : Error

-- `http_status` of the `VotFError` classes, where `unauthenticated` is `InvalidToken` or the
-- `HTTPException` of app/deps.py; any other exception is answered by the server's 500.
unfoldable pub http_status : Error → ℕ
http_status unauthenticated = 401
http_status not_found = 404
http_status forbidden = 403
http_status validation = 400
http_status conflict = 409
http_status upstream = 502
http_status _ = 500

pub data Result {ℓ} (A : Type ℓ) : Type ℓ where
  ok : A → Result A
  err : Error → Result A
