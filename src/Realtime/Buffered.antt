-- ===== src/Realtime/Buffered.antt =====
-- What a connection delivers of the frames that are put to it.
use mathlib.Core.List.{append_assoc, append-nil}
use native.Mathlib.Nat.{le_trans}
use vof_backend.Prelude.{
  length, length-append, ltb, Bool-cases, ◌+◌, ◌≤◌, ◌≡◌, refl, sym, ap, ◌∙◌, subst, inl, inr, true,
  false, List, [], ◌∷◌, ◌++◌, arith,
}
use vof_backend.Realtime.Hub.{
  HubFrame, bus_frame, ping, send_buffer_max, Connection, put_frame, send_first, send_frame,
  HubEvent, arrives, beats, sends, hub_step, hub_steps,
}

-- The frames that events put.
abbrev pub offered : List HubEvent → List HubFrame
offered [] = []
offered (arrives f ∷ es) = bus_frame f ∷ offered es
offered (beats ts ∷ es) = ping ts ∷ offered es
offered (sends ∷ es) = offered es

-- The first list is the second without some of its elements, in the same order.
pub data Part : List HubFrame → List HubFrame → Type 0 where
  part_nil : Part [] []
  part_keep : {xs ys : List HubFrame} (f : HubFrame) → Part xs ys → Part (f ∷ xs) (f ∷ ys)
  part_drop : {xs ys : List HubFrame} (f : HubFrame) → Part xs ys → Part xs (f ∷ ys)

-- What becomes of a connection by events that put the frames `put`.
pub record Delivers (c c' : Connection) (put : List HubFrame) : Type 0 where
  pub kept : List HubFrame
  pub part : Part kept put
  pub delivered : c'.sent ++ c'.send_buffer ≡ (c.sent ++ c.send_buffer) ++ kept
  pub counted : c'.dropped + length kept ≡ c.dropped + length put
  pub bounded : length c.send_buffer ≤ 100 → length c'.send_buffer ≤ 100

Delivers-nil : (c : Connection) → Delivers c c []
Delivers-nil c = record {
  kept = [];
  part = part_nil;
  delivered = sym (append-nil (c.sent ++ c.send_buffer));
  counted = refl;
  bounded = λ h. h;
}

put_last :
    (xs ys : List HubFrame) (f : HubFrame) (zs : List HubFrame)
    → (xs ++ (ys ++ (f ∷ []))) ++ zs ≡ (xs ++ ys) ++ (f ∷ zs)
put_last xs ys f zs =
    ap (λ l. l ++ zs) (sym (append_assoc xs ys (f ∷ []))) ∙ append_assoc (xs ++ ys) (f ∷ []) zs

stored :
    (f : HubFrame) (c : Connection)
    → ltb (length c.send_buffer) send_buffer_max ≡ true
    → put_frame f c ≡ record c { send_buffer = c.send_buffer ++ (f ∷ []) }
unfolding put_frame
stored f c h = ground arith

refused :
    (f : HubFrame) (c : Connection)
    → ltb (length c.send_buffer) send_buffer_max ≡ false
    → put_frame f c ≡ record c { dropped = c.dropped + 1 }
unfolding put_frame
refused f c h = ground arith

put-Delivers :
    (f : HubFrame) (c c' : Connection) (put : List HubFrame)
    → Delivers (put_frame f c) c' put
    → Delivers c c' (f ∷ put)
unfolding send_buffer_max
put-Delivers f c c' put d = elim (Bool-cases (ltb (length c.send_buffer) send_buffer_max)) [
  | inl h ↦
      (let e = subst (λ x. Delivers x c' put) (stored f c h) d in
        record {
          kept = f ∷ e.kept;
          part = part_keep f e.part;
          delivered = e.delivered ∙ put_last c.sent c.send_buffer f e.kept;
          counted = ground (arith, e.counted);
          bounded = λ b. e.bounded (ground (arith, length-append c.send_buffer (f ∷ [])));
        })
  | inr h ↦
      (let e = subst (λ x. Delivers x c' put) (refused f c h) d in
        record {
          kept = e.kept;
          part = part_drop f e.part;
          delivered = e.delivered;
          counted = ground (arith, e.counted);
          bounded = e.bounded;
        })
]

sent_on :
    (fs : List HubFrame) (c : Connection)
    → c.send_buffer ≡ fs
    → ((send_first fs c).sent ++ (send_first fs c).send_buffer ≡ c.sent ++ c.send_buffer)
      × ((send_first fs c).dropped ≡ c.dropped)
      × (length (send_first fs c).send_buffer ≤ length c.send_buffer)
unfolding send_first
sent_on [] c h = (refl, refl, omega arith)
sent_on (f ∷ fs) c h =
    (append_assoc c.sent (f ∷ []) fs ∙ ap (λ l. c.sent ++ l) (sym h), refl, rw h (omega arith))

send-Delivers :
    (c c' : Connection) (put : List HubFrame) → Delivers (send_frame c) c' put → Delivers c c' put
unfolding send_frame
send-Delivers c c' put d =
    let (s, n, l) = sent_on c.send_buffer c refl in
    record {
      kept = d.kept;
      part = d.part;
      delivered = d.delivered ∙ ap (λ x. x ++ d.kept) s;
      counted = d.counted ∙ ap (λ x. x + length put) n;
      bounded = λ b. d.bounded (le_trans l b);
    }

-- Whatever comes from the bus, from the heartbeat and from the sender, in any order: what was sent and
-- then what is in the buffer is what was there at first and then a part of the frames that came since,
-- in their order, each at most once; the frames that are missing are exactly as many as were counted as
-- dropped; and the buffer never holds more than 100, if it did not at first.
pub hub_steps-Delivers :
    (es : List HubEvent) (c : Connection) → Delivers c (hub_steps es c) (offered es)
unfolding hub_steps hub_step
hub_steps-Delivers [] c = Delivers-nil c
hub_steps-Delivers (arrives f ∷ es) c =
    put-Delivers (bus_frame f) c _ (offered es) (hub_steps-Delivers es (put_frame (bus_frame f) c))
hub_steps-Delivers (beats ts ∷ es) c =
    put-Delivers (ping ts) c _ (offered es) (hub_steps-Delivers es (put_frame (ping ts) c))
hub_steps-Delivers (sends ∷ es) c =
    send-Delivers c _ (offered es) (hub_steps-Delivers es (send_frame c))
