-- ===== src/Email/Repo.antt =====
-- app/db/repositories/email_messages_repo.py.
use vof_backend.Decision.Repo.{key}
use vof_backend.Email.Models.{EmailMessage}
use vof_backend.Errors.{integrity, ok, err}
use vof_backend.Exec.{Exec}
use vof_backend.Prelude.{select, if◌then◌else◌, Bool, false, ◌||◌, List, [], ◌∷◌, ◌++◌}
use vof_backend.Text.{Text, text_eq, contains}

unfoldable pub exists_by_idem : Text → List EmailMessage → Bool
exists_by_idem key [] = false
exists_by_idem key (m ∷ ms) = text_eq m.correlation_idempotency_key key || exists_by_idem key ms

-- The key is unique.
unfoldable pub create_email : EmailMessage → Exec (List EmailMessage) Unit
unfolding exists_by_idem
create_email m ms =
    if exists_by_idem m.correlation_idempotency_key ms
    then (err integrity, ms)
    else (ok tt, ms ++ (m ∷ []))

-- `find_by_provider_message_ids`
unfoldable pub find_by_message_ids : List Text → List EmailMessage → List EmailMessage
unfolding contains
find_by_message_ids ids ms = select (λ m. contains m.provider_message_id ids) ms
