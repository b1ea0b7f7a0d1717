-- ===== src/Email/Composer.antt =====
-- `render_email_template` of app/email/composer.py, once the template is rendered.
use vof_backend.Email.Models.{ComposedEmail}
use vof_backend.Prelude.{drop, ◌==◌, if◌then◌else◌, none, [], ◌∷◌, ◌++◌}
use vof_backend.Text.{Text, codes, strip, starts_with, CaseMap}

-- `s.split("\n", 1)`: the first line, and what follows it where there is more than one.
unfoldable pub first_line : Text → Text × Text
first_line [] = ([], [])
first_line (c ∷ s) = let rest = first_line s in if c == 10 then ([], s) else (c ∷ rest.0, rest.1)

unfoldable pub composed_of : CaseMap → (workspace_name rendered : Text) → ComposedEmail
unfolding first_line strip starts_with
composed_of c workspace_name rendered =
    let subject_line = strip (first_line rendered).0 in
    let body = strip (first_line rendered).1 in
    if starts_with (c.lower subject_line) (codes "subject:")
    then record { subject = strip (drop 8 subject_line); body = body; html = none }
    else record { subject = codes "Update from " ++ workspace_name; body = rendered; html = none }
