-- ===== src/Realtime/Hub.antt =====
-- The frames of one connection of app/realtime/ws_hub.py: the snapshot, and the buffer between the bus
-- and the socket. Each event of the loops is one step.
use vof_backend.Db.{Frame, call_started, AppDb}
use vof_backend.Prelude.{length, ltb, if◌then◌else◌, ℕ, ◌+◌, List, [], ◌∷◌, ◌++◌, map}
use vof_backend.Telephony.Calls.{list_in_progress}

pub data HubFrame : Type 0 where
  snapshot : List Frame → HubFrame
  bus_frame : Frame → HubFrame
  ping : (ts : ℕ) → HubFrame

unfoldable pub build_snapshot : ℕ → AppDb → HubFrame
unfolding list_in_progress
build_snapshot workspace_id db = snapshot (
    map (λ c. call_started c.id c.field_employee_id c.started_at)
      (list_in_progress workspace_id db))

unfoldable pub send_buffer_max : ℕ
send_buffer_max = 100

pub record Connection : Type 0 where
  pub send_buffer : List HubFrame
  pub dropped : ℕ
  pub sent : List HubFrame

-- `put_nowait`, with the count of what a full queue refuses
unfoldable pub put_frame : HubFrame → Connection → Connection
unfolding send_buffer_max
put_frame f c =
    if ltb (length c.send_buffer) send_buffer_max
    then record c { send_buffer = c.send_buffer ++ (f ∷ []) }
    else record c { dropped = c.dropped + 1 }

unfoldable pub send_first : List HubFrame → Connection → Connection
send_first [] c = c
send_first (f ∷ fs) c = record c { send_buffer = fs; sent = c.sent ++ (f ∷ []) }

-- One turn of the sender; it waits while the buffer is empty.
unfoldable pub send_frame : Connection → Connection
unfolding send_first
send_frame c = send_first c.send_buffer c

-- A frame of the bus, a heartbeat, or a turn of the sender.
pub data HubEvent : Type 0 where
  arrives : Frame → HubEvent
  beats : (ts : ℕ) → HubEvent
  sends : HubEvent

unfoldable pub hub_step : HubEvent → Connection → Connection
unfolding put_frame send_frame
hub_step (arrives f) c = put_frame (bus_frame f) c
hub_step (beats ts) c = put_frame (ping ts) c
hub_step sends c = send_frame c

unfoldable pub hub_steps : List HubEvent → Connection → Connection
unfolding hub_step
hub_steps [] c = c
hub_steps (e ∷ es) c = hub_steps es (hub_step e c)

-- The state after the snapshot was sent.
unfoldable pub open_connection : ℕ → AppDb → Connection
unfolding build_snapshot
open_connection workspace_id db = record {
  send_buffer = [];
  dropped = 0;
  sent = build_snapshot workspace_id db ∷ [];
}
