-- ===== src/Telephony/Scope.antt =====
-- The workspace of an event: the first half of `materialize_scope_and_call`, with the lookups of
-- app/db/repositories/workspaces_repo.py.
use vof_backend.Db.{AppDb}
use vof_backend.Db.Models.{ManagerWorkspace}
use vof_backend.Errors.{runtime_error, Result, ok, err}
use vof_backend.Exec.{Exec, pure, gets, ◌>>=◌}
use vof_backend.Prelude.{
  select, find_first, ◌==◌, if◌then◌else◌, ℕ, Bool, false, Option, none, some, List, [], ◌∷◌,
}
use vof_backend.Telephony.Events.{
  WebhookScope, TelephonyEvent, voice_event, sms_event, ended_event, reaction_event,
}
use vof_backend.Text.{Text, is_empty, text_eq}

-- `scalar_one_or_none` on a column that need not be unique
abbrev pub one_or_none : List ManagerWorkspace → Result (Option ManagerWorkspace)
one_or_none [] = ok none
one_or_none (w ∷ []) = ok (some w)
one_or_none (w ∷ x ∷ ws) = err runtime_error

-- `column == value`, which a null never is
abbrev pub column_is : Option Text → Text → Bool
column_is none value = false
column_is (some t) value = text_eq t value

-- The column is unique.
unfoldable pub get_by_primary_number : Text → AppDb → Option ManagerWorkspace
get_by_primary_number phone db = find_first (λ w. column_is w.primary_number phone) db.workspaces

unfoldable pub get_by_agentphone_number_id : Text → Exec AppDb (Option ManagerWorkspace)
get_by_agentphone_number_id number_id db =
    if is_empty number_id
    then (ok none, db)
    else (one_or_none (select (λ w. column_is w.agentphone_number_id number_id) db.workspaces), db)

unfoldable pub get_by_agentphone_agent_id : Text → Exec AppDb (Option ManagerWorkspace)
get_by_agentphone_agent_id agent_id db =
    if is_empty agent_id
    then (ok none, db)
    else (one_or_none (select (λ w. column_is w.agentphone_agent_id agent_id) db.workspaces), db)

-- The identifiers that an event carries.
pub record Identifiers : Type 0 where
  pub scope : Option WebhookScope
  pub to_number : Text
  pub ap_number_id : Text
  pub ap_agent_id : Text

unfoldable pub identifiers : TelephonyEvent → Identifiers
identifiers (voice_event e) = record {
  scope = e.scope;
  to_number = e.to_number;
  ap_number_id = e.ap_number_id;
  ap_agent_id = e.ap_agent_id;
}
identifiers (sms_event e) = record {
  scope = e.scope;
  to_number = e.to_number;
  ap_number_id = [];
  ap_agent_id = [];
}
identifiers (ended_event e) = record {
  scope = e.scope;
  to_number = e.to_number;
  ap_number_id = e.ap_number_id;
  ap_agent_id = e.ap_agent_id;
}
identifiers (reaction_event e) = record {
  scope = e.scope;
  to_number = [];
  ap_number_id = [];
  ap_agent_id = [];
}

-- The workspace of the echoed scope, unless its id is the null UUID.
abbrev pub scope_workspace : Option WebhookScope → Option ℕ
scope_workspace none = none
scope_workspace (some s) = if s.workspace_id == 0 then none else some s.workspace_id

abbrev pub id_of : Option ManagerWorkspace → Option ℕ
id_of none = none
id_of (some w) = some w.id

-- The echoed scope, or else the number that was called.
unfoldable pub scope_or_number : Identifiers → AppDb → Option ℕ
unfolding get_by_primary_number
scope_or_number x db = elim (scope_workspace x.scope) [
  | some w ↦ some w
  | none ↦ if is_empty x.to_number then none else id_of (get_by_primary_number x.to_number db)
]

unfoldable pub or_lookup : Option ℕ → Exec AppDb (Option ManagerWorkspace) → Exec AppDb (Option ℕ)
or_lookup (some w) lookup = pure (some w)
or_lookup none lookup = do found ← lookup; pure (id_of found)

unfoldable pub resolve_workspace : Identifiers → Exec AppDb (Option ℕ)
unfolding scope_or_number get_by_agentphone_number_id get_by_agentphone_agent_id or_lookup
resolve_workspace x = do
  first ← gets (scope_or_number x)
  second ← or_lookup first (get_by_agentphone_number_id x.ap_number_id)
  or_lookup second (get_by_agentphone_agent_id x.ap_agent_id)
