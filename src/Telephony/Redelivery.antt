-- ===== src/Telephony/Redelivery.antt =====
-- A second delivery of the end of a call.
use vof_backend.Db.{AppDb}
use vof_backend.Db.Models.{Call, ManagerWorkspace}
use vof_backend.Errors.{ok}
use vof_backend.Prelude.{
  Distinct, save_row-same, get_or_else, ℕ, ◌≡◌, ap, ◌∙◌, Bool, false, none, some, arith,
}
use vof_backend.Telephony.Calls.{
  call_key, get_call, get_by_agentphone_id, save_call, ended_row, mark_ended,
}
use vof_backend.Telephony.Ended.{summary_of, ended_call, ended_frames, materialize_ended}
use vof_backend.Telephony.Events.{CallEnded}
use vof_backend.Telephony.Matched.{Matched, ended-Matched, known_call, ended_call-Ending}
use vof_backend.Telephony.Voice.{Arrival}
use vof_backend.Text.{is_empty}

abbrev end_time : CallEnded → Call → ℕ
end_time e c = get_or_else e.ended_at c.started_at

abbrev done_row : CallEnded → Call → Call
done_row e c = ended_row (end_time e c) (summary_of e) c

ended_done :
    (a : Arrival) (ws : ManagerWorkspace) (workspace_id : ℕ) (e : CallEnded) (c : Call)
    (is_new : Bool) (db db' : AppDb)
    → ended_call a ws workspace_id e db ≡ (ok (c, is_new), db')
    → get_call c.id db' ≡ some c
    → materialize_ended a ws workspace_id e db ≡ (
      ok (record {
        workspace_id = workspace_id;
        call_id = some c.id;
        pending_frames = ended_frames c is_new (end_time e c);
      }),
      (save_call (done_row e c) db').1,
    )
unfolding materialize_ended mark_ended
ended_done a ws workspace_id e c is_new db db' h k = ground arith

done_row-done_row : (e : CallEnded) (c : Call) → done_row e (done_row e c) ≡ done_row e c
unfolding ended_row summary_of
done_row-done_row e c = ground arith

save_call-same : (c : Call) (db : AppDb) → get_call c.id db ≡ some c → (save_call c db).1 ≡ db
unfolding save_call get_call
save_call-same c db h = ap (λ x. record db { calls = x }) (save_row-same call_key c db.calls h)

ended_again :
    (a : Arrival) (ws : ManagerWorkspace) (workspace_id : ℕ) (e : CallEnded) (c : Call) (db : AppDb)
    → is_empty e.ap_call_id ≡ false
    → Matched e.ap_call_id (done_row e c) db
    → materialize_ended a ws workspace_id e db ≡ (
      ok (record {
        workspace_id = workspace_id;
        call_id = some c.id;
        pending_frames = ended_frames c false (end_time e c);
      }),
      db,
    )
unfolding ended_frames
ended_again a ws workspace_id e c db named m =
    ended_done a ws workspace_id e (done_row e c) false db db
      (known_call a ws workspace_id e db named (done_row e c) m.by_id) m.by_key
    ∙ (unfold ended_row in
        ap
          (λ x. (
            ok (record {
              workspace_id = workspace_id;
              call_id = some c.id;
              pending_frames = ended_frames c false (end_time e c);
            }),
            x,
          ))
          (ap (λ r. (save_call r db).1) (done_row-done_row e c)
            ∙ save_call-same (done_row e c) db m.by_key))

-- What two deliveries of an end come to.
pub record Delivered (a a' : Arrival) (ws : ManagerWorkspace) (workspace_id : ℕ) (e : CallEnded)
    (db : AppDb) : Type 0 where
  pub call : Call
  pub is_new : Bool
  pub after : AppDb
  pub first : materialize_ended a ws workspace_id e db ≡ (
    ok (record {
      workspace_id = workspace_id;
      call_id = some call.id;
      pending_frames = ended_frames call is_new (end_time e call);
    }),
    after,
  )
  pub second : materialize_ended a' ws workspace_id e after ≡ (
    ok (record {
      workspace_id = workspace_id;
      call_id = some call.id;
      pending_frames = ended_frames call false (end_time e call);
    }),
    after,
  )
  pub stored : get_by_agentphone_id e.ap_call_id after ≡ some (done_row e call)

-- The end of a call that carries the provider's id never raises, whether the call is known by the id,
-- stands in under an id of its own, or is new: the call of that id is then ended in the table. A second
-- delivery, at any time, names the same call, announces no start of a call and changes no table. The ids
-- in the table are different, and a new call takes an id that none has.
pub materialize_ended-again :
    (a a' : Arrival) (ws : ManagerWorkspace) (workspace_id : ℕ) (e : CallEnded) (db : AppDb)
    → is_empty e.ap_call_id ≡ false
    → Distinct call_key db.calls
    → get_call a.new_call_id db ≡ none
    → Delivered a a' ws workspace_id e db
materialize_ended-again a a' ws workspace_id e db named d f =
    let r = ended_call-Ending a ws workspace_id e db named d f in
    let m =
      ended-Matched e.ap_call_id (end_time e r.call) (summary_of e) r.call r.after r.matched in
    record {
      call = r.call;
      is_new = r.is_new;
      after = (save_call (done_row e r.call) r.after).1;
      first = ended_done a ws workspace_id e r.call r.is_new db r.after r.outcome r.matched.by_key;
      second =
          ended_again a' ws workspace_id e r.call (save_call (done_row e r.call) r.after).1 named m;
      stored = m.by_id;
    }
