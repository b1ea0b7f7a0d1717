-- ===== src/Telephony/Calls.antt =====
-- app/db/repositories/calls_repo.py
use vof_backend.Db.{AppDb}
use vof_backend.Db.Models.{Payload, in_progress, ended, Call, is_live}
use vof_backend.Errors.{integrity, runtime_error, ok, err}
use vof_backend.Exec.{Exec, gets, or_raise, ◌>>=◌}
use vof_backend.Prelude.{
  select, find_first, find_row, save_row, order_desc, ◌==◌, if◌then◌else◌, is_some, or_else, ℕ,
  ◌&&◌, Option, none, some, List, [], ◌∷◌, ◌++◌,
}
use vof_backend.Text.{Text, text_eq}

abbrev pub call_key : Call → ℕ
call_key c = c.id

abbrev pub call_started_at : Call → ℕ
call_started_at c = c.started_at

unfoldable pub get_call : ℕ → AppDb → Option Call
get_call call_id db = find_row call_key call_id db.calls

-- The column is unique.
unfoldable pub get_by_agentphone_id : Text → AppDb → Option Call
get_by_agentphone_id ap_call_id db =
    find_first (λ c. text_eq c.agentphone_call_id ap_call_id) db.calls

unfoldable pub list_in_progress : ℕ → AppDb → List Call
list_in_progress workspace_id db =
    order_desc call_started_at
      (select (λ c. c.workspace_id == workspace_id && is_live c.status) db.calls)

-- The insert of a row; the agentphone id is unique.
unfoldable pub create_call : Call → Exec AppDb Call
unfolding get_by_agentphone_id
create_call c db =
    if is_some (get_by_agentphone_id c.agentphone_call_id db)
    then (err integrity, db)
    else (ok c, record db { calls = db.calls ++ (c ∷ []) })

unfoldable pub new_call :
    (new_id workspace_id organization_id : ℕ) (agentphone_call_id : Text)
    (from_number to_number : Option Text) (started_at : ℕ) (field_employee_id : Option ℕ)
    → Call
new_call new_id workspace_id organization_id agentphone_call_id from_number to_number started_at
      fe =
    record {
      id = new_id;
      workspace_id = workspace_id;
      organization_id = organization_id;
      field_employee_id = fe;
      agentphone_call_id = agentphone_call_id;
      from_number = from_number;
      to_number = to_number;
      status = in_progress;
      started_at = started_at;
      ended_at = none;
      provider_summary = none;
    }

unfoldable pub save_call : Call → Exec AppDb Call
save_call c db = (ok c, record db { calls = save_row call_key c db.calls })

unfoldable pub ended_row : (ended_at : ℕ) → Option Payload → Call → Call
ended_row at summary c = record c {
  status = ended;
  ended_at = some at;
  provider_summary = or_else summary c.provider_summary;
}

unfoldable pub mark_ended : (call_id ended_at : ℕ) → Option Payload → Exec AppDb Call
unfolding get_call save_call ended_row
mark_ended call_id at summary = do
  found ← gets (get_call call_id)
  c ← or_raise found runtime_error
  save_call (ended_row at summary c)
