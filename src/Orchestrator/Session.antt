-- ===== src/Orchestrator/Session.antt =====
-- `CallSession` and `RedisSessionStore` of app/orchestrator/session.py. The key of one call is a value
-- with the number of its writes, by which `WATCH` knows a change. A session is stored as it is read
-- again; the JSON text between is left out, and so is the end of a key by its time.
use vof_backend.Db.Models.{Speaker}
use vof_backend.Prelude.{
  length, drop, ltb, ◌==◌, if◌then◌else◌, get_or_else, ℕ, ◌+◌, ◌-◌, Option, none, some, List, [],
  ◌∷◌, ◌++◌,
}
use vof_backend.Text.{Text}

pub record Turn : Type 0 where
  pub speaker : Speaker
  pub text : Text
  pub ts : ℕ

-- The cached retrievals are left out: no code of the repository fills them.
pub record CallSession : Type 0 where
  pub call_id : ℕ
  pub workspace_id : ℕ
  pub field_employee_id : Option ℕ
  pub conversation_history : List Turn
  pub pending_decisions : List ℕ
  pub manager_whispers : List Text
  pub consumed_whispers : List Text
  pub pending_intervention_ids : List ℕ
  pub state_version : ℕ

abbrev pub history_cap : ℕ
history_cap = 40

-- `xs[-n:]`
abbrev last_of : ℕ → List Turn → List Turn
last_of n xs = drop (length xs - n) xs

unfoldable pub append_turn : Turn → CallSession → CallSession
append_turn t s =
    let history = s.conversation_history ++ (t ∷ []) in
    record s {
      conversation_history =
          if ltb history_cap (length history) then last_of history_cap history else history;
    }

pub record SessionKey : Type 0 where
  pub value : Option CallSession
  pub writes : ℕ

unfoldable pub load : SessionKey → Option CallSession
load k = k.value

unfoldable pub new_session : (call_id workspace_id : ℕ) → Option ℕ → CallSession
new_session call_id workspace_id field_employee_id = record {
  call_id = call_id;
  workspace_id = workspace_id;
  field_employee_id = field_employee_id;
  conversation_history = [];
  pending_decisions = [];
  manager_whispers = [];
  consumed_whispers = [];
  pending_intervention_ids = [];
  state_version = 0;
}

unfoldable pub load_or_create : (call_id workspace_id : ℕ) → Option ℕ → SessionKey → CallSession
unfolding load new_session
load_or_create call_id workspace_id field_employee_id k =
    get_or_else (load k) (new_session call_id workspace_id field_employee_id)

pub data SaveError : Type 0 where
  cas_mismatch save_failed : SaveError

-- A save after its `WATCH` and `GET`: the session, and the writes that it saw.
pub record Watched : Type 0 where
  pub session : CallSession
  pub seen : ℕ

-- The first half of a save.
unfoldable pub check_version : CallSession → SessionKey → Option SaveError × Watched
check_version s k =
    let watched : Watched = record { session = s; seen = k.writes } in
    elim k.value [
      | none ↦ (none, watched)
      | some current ↦
          if current.state_version == s.state_version
          then (none, watched)
          else (some cas_mismatch, watched)
    ]

-- The second half, `MULTI`, `SET` and `EXEC`, which writes nothing where the watched key has changed.
unfoldable pub execute : Watched → SessionKey → Option SaveError × SessionKey
execute w k =
    if k.writes == w.seen
    then (
      none,
      record {
        value = some (record w.session { state_version = w.session.state_version + 1 });
        writes = k.writes + 1;
      },
    )
    else (some save_failed, k)

-- A save that nothing comes between. The code counts the version of its own object up before `EXEC`, also
-- where that fails; both callers end after a save and drop the object.
unfoldable pub save : CallSession → SessionKey → Option SaveError × SessionKey
save s k = let (e, w) = check_version s k in elim e [ some x ↦ (some x, k) | none ↦ execute w k ]

-- `DEL` of the key, which is no change where there is none.
unfoldable pub delete : SessionKey → SessionKey
delete k = elim k.value [ none ↦ k | some _ ↦ record { value = none; writes = k.writes + 1 } ]
