-- ===== src/Decision/Outcomes/Open.antt =====
-- `open` adds one row and hands on its frame, message and timeout job, or raises and changes nothing.
use vof_backend.Db.{decision_opened, AppDb}
use vof_backend.Db.Models.{DecisionClass, DecisionRequest, ManagerWorkspace}
use vof_backend.Decision.Repo.{new_decision}
use vof_backend.Decision.Service.{
  Env, class_of, no_options, OpenRequest, workspace_key, timeout_of, sms_ping, timeout_jobs,
  open_decision,
}
use vof_backend.Errors.{Error, not_found, validation, ok, err}
use vof_backend.Prelude.{
  find_row, Bool-cases, Option-cases, ℕ, ◌≡◌, ◌⊎◌, inl, inr, true, false, none, some, [], ◌∷◌, ◌++◌,
  arith,
}
use vof_backend.Text.{CaseMap}

-- The row that a request makes.
abbrev pub opened_row : Env → OpenRequest → ℕ → DecisionClass → DecisionRequest
opened_row env req manager cls =
    new_decision env.new_id env.now req.call_id req.workspace_id manager req.prompt req.options cls
      (timeout_of env.now cls) req.context

-- The database after it.
abbrev pub opened_db : CaseMap → Env → OpenRequest → DecisionRequest → AppDb → AppDb
opened_db c env req d db = record db {
  decisions = db.decisions ++ (d ∷ []);
  frames =
      db.frames
      ++ ((
        d.workspace_id,
        decision_opened d.call_id d.id d.prompt d.options d.decision_class d.timeout_at,
      )
          ∷ []);
  messages = db.messages ++ sms_ping c env d req.manager_phone req.agentphone_agent_id;
  jobs = db.jobs ++ timeout_jobs env d;
}

pub record Opened (c : CaseMap) (env : Env) (req : OpenRequest) (db : AppDb) : Type 0 where
  pub workspace : ManagerWorkspace
  pub manager : ℕ
  pub cls : DecisionClass
  pub has_options : no_options req.options ≡ false
  pub named : class_of req.decision_class ≡ some cls
  pub found : find_row workspace_key req.workspace_id db.workspaces ≡ some workspace
  pub managed : workspace.manager_user_id ≡ some manager
  pub outcome : open_decision c env req db ≡ (
    ok (opened_row env req manager cls),
    opened_db c env req (opened_row env req manager cls) db,
  )

pub record NotOpened (c : CaseMap) (env : Env) (req : OpenRequest) (db : AppDb) : Type 0 where
  pub error : Error
  pub outcome : open_decision c env req db ≡ (err error, db)

module _ (c : CaseMap) (env : Env) (req : OpenRequest) (db : AppDb) where
  open_no_options :
      no_options req.options ≡ true → open_decision c env req db ≡ (err validation, db)
  unfolding open_decision
  open_no_options h = ground arith

  module _ (opts : no_options req.options ≡ false) where
    open_no_class :
        class_of req.decision_class ≡ none → open_decision c env req db ≡ (err validation, db)
    unfolding open_decision
    open_no_class h = rw (opts, h, open_decision)

    module _ (cls : DecisionClass) (named : class_of req.decision_class ≡ some cls) where
      open_no_workspace :
          find_row workspace_key req.workspace_id db.workspaces ≡ none
          → open_decision c env req db ≡ (err not_found, db)
      unfolding open_decision
      open_no_workspace h = rw (opts, named, h, open_decision)

      module _ (w : ManagerWorkspace)
          (found : find_row workspace_key req.workspace_id db.workspaces ≡ some w) where
        open_no_manager :
            w.manager_user_id ≡ none → open_decision c env req db ≡ (err validation, db)
        unfolding open_decision
        open_no_manager h = rw (opts, named, found, h, open_decision)

        open_done :
            (m : ℕ)
            → w.manager_user_id ≡ some m
            → open_decision c env req db
              ≡ (ok (opened_row env req m cls), opened_db c env req (opened_row env req m cls) db)
        unfolding open_decision
        open_done m h = rw (opts, named, found, h, open_decision)

        open_found : NotOpened c env req db ⊎ Opened c env req db
        open_found = elim (Option-cases w.manager_user_id) [
          | inl h ↦ inl (record { error = validation; outcome = open_no_manager h })
          | inr (m, h) ↦ inr (record {
            workspace = w;
            manager = m;
            cls = cls;
            has_options = opts;
            named = named;
            found = found;
            managed = h;
            outcome = open_done m h;
          })
        ]

      open_named : NotOpened c env req db ⊎ Opened c env req db
      open_named = elim (Option-cases (find_row workspace_key req.workspace_id db.workspaces)) [
        | inl h ↦ inl (record { error = not_found; outcome = open_no_workspace h })
        | inr (w, h) ↦ open_found w h
      ]

    open_optioned : NotOpened c env req db ⊎ Opened c env req db
    open_optioned = elim (Option-cases (class_of req.decision_class)) [
      | inl h ↦ inl (record { error = validation; outcome = open_no_class h })
      | inr (cls, h) ↦ open_named cls h
    ]

  pub open-cases : NotOpened c env req db ⊎ Opened c env req db
  open-cases = elim (Bool-cases (no_options req.options)) [
    | inl h ↦ inl (record { error = validation; outcome = open_no_options h })
    | inr h ↦ open_optioned h
  ]
