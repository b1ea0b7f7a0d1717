-- ===== src/Email/Once.antt =====
-- How often an email is sent.
use vof_backend.Db.Models.{ManagerWorkspace}
use vof_backend.Email.Delivery.{
  Preparation, skip, render_raised, ready_to_send, idem_key, compose, prepare, outbound, email_row,
  after_send, finish, run,
}
use vof_backend.Email.Keys.{
  recorded, exists_by_idem-append, KeysOnce-append, addressed, Accounted, map-append,
}
use vof_backend.Email.Messages.{
  EmailDeliveryInput, Outbound, SendOutcome, accepted, not_implemented, send_raised,
  EmailDeliveryResult, sent, EmailWorld,
}
use vof_backend.Email.Models.{RecipientClass, ComposedEmail, SentMessage, EmailMessage}
use vof_backend.Email.Repo.{exists_by_idem, create_email}
use vof_backend.Errors.{integrity, Result, ok, err}
use vof_backend.Prelude.{
  length, length-append, Bool-cases, ℕ, ◌+◌, ◌≡◌, refl, sym, ap, ◌∙◌, subst, inl, inr, true, false,
  Option, List, [], ◌∷◌, ◌++◌, arith,
}
use vof_backend.Text.{Text, text_eq_refl, CaseMap}

module _ (c : CaseMap) (sha256 : Text → Text) {Artifact : Type 0}
    (load_artifact : Text → Option Artifact)
    (render : Text → Artifact → ManagerWorkspace → RecipientClass → Option Text) where
  compose-idem_key :
      (i : EmailDeliveryInput) (w : ManagerWorkspace) (ws : ManagerWorkspace) (idem : Text)
      (composed : ComposedEmail)
      → compose c sha256 load_artifact render i w ≡ ready_to_send ws idem composed
      → idem ≡ idem_key c sha256 i
  unfolding compose
  compose-idem_key i w ws idem composed h = ground arith

  -- What is ready to be sent has a key that no row has.
  prepare-fresh :
      (i : EmailDeliveryInput) (w : EmailWorld) (ws : ManagerWorkspace) (idem : Text)
      (composed : ComposedEmail)
      → prepare c sha256 load_artifact render i w ≡ ready_to_send ws idem composed
      → exists_by_idem idem w.emails ≡ false
  unfolding prepare
  prepare-fresh i w ws idem composed h =
      elim (Bool-cases (exists_by_idem (idem_key c sha256 i) w.emails)) [
        | inl e ↦ absurd (ground (arith, e))
        | inr e ↦ ground (arith, e, compose-idem_key i ws ws idem composed)
      ]

  module _ (send : Outbound → SendOutcome) where
    module _ (row_id : ℕ) (i : EmailDeliveryInput) (w : EmailWorld) (ws : ManagerWorkspace)
        (idem : Text) (composed : ComposedEmail) where
      abbrev mail : Outbound
      mail = outbound c sha256 load_artifact render i ws composed

      abbrev row : SentMessage → EmailMessage
      row m = email_row c sha256 load_artifact render row_id i ws idem m

      -- A send that is accepted under a new key
      abbrev finished : Result EmailDeliveryResult × EmailWorld
      finished =
          finish c sha256 load_artifact render send row_id i (ready_to_send ws idem composed) w

      abbrev after : SendOutcome → Result EmailDeliveryResult × EmailWorld
      after o = after_send c sha256 load_artifact render row_id i ws idem composed o w

      pub finish-accepted :
          (m : SentMessage)
          → send mail ≡ accepted m
          → exists_by_idem idem w.emails ≡ false
          → finished ≡ (
            ok (sent m),
            record w { outbox = w.outbox ++ (mail ∷ []); emails = w.emails ++ (row m ∷ []) },
          )
      unfolding finish after_send create_email email_row
      finish-accepted m e fresh = ap after e ∙ rw fresh refl

      -- A send that is accepted under a key that has a row by then
      pub finish-taken :
          (m : SentMessage)
          → send mail ≡ accepted m
          → exists_by_idem idem w.emails ≡ true
          → finished ≡ (err integrity, record w { outbox = w.outbox ++ (mail ∷ []) })
      unfolding finish after_send create_email email_row
      finish-taken m e taken = ap after e ∙ rw taken refl

      accepted-Accounted :
          (m : SentMessage)
          → exists_by_idem idem w.emails ≡ false
          → Accounted w
          → Accounted
              (record w { outbox = w.outbox ++ (mail ∷ []); emails = w.emails ++ (row m ∷ []) })
      unfolding outbound email_row
      accepted-Accounted m fresh a = record {
        rows =
            map-append addressed w.outbox mail
            ∙ (ap (λ l. l ++ (addressed mail ∷ [])) a.rows
                ∙ sym (map-append recorded w.emails (row m)));
        once = KeysOnce-append w.emails (row m) fresh a.once;
      }

      sending-Accounted :
          (o : SendOutcome)
          → send mail ≡ o
          → exists_by_idem idem w.emails ≡ false
          → Accounted w
          → Accounted finished.1
      unfolding finish after_send
      sending-Accounted not_implemented e fresh a = subst (λ o. Accounted (after o).1) (sym e) a
      sending-Accounted (send_raised class) e fresh a = subst (λ o. Accounted (after o).1) (sym e) a
      sending-Accounted (accepted m) e fresh a =
          rw (finish-accepted m e fresh) (accepted-Accounted m fresh a)

    finish-Accounted :
        (row_id : ℕ) (i : EmailDeliveryInput) (p : Preparation) (w : EmailWorld)
        → prepare c sha256 load_artifact render i w ≡ p
        → Accounted w
        → Accounted (finish c sha256 load_artifact render send row_id i p w).1
    unfolding finish
    finish-Accounted row_id i (skip reason) w h a = a
    finish-Accounted row_id i render_raised w h a = a
    finish-Accounted row_id i (ready_to_send ws idem composed) w h a =
        sending-Accounted row_id i w ws idem composed
          (send (outbound c sha256 load_artifact render i ws composed)) refl
          (prepare-fresh i w ws idem composed h) a

    -- The jobs of the queue, one after the other
    abbrev pub deliveries : List (ℕ × EmailDeliveryInput) → EmailWorld → EmailWorld
    deliveries [] w = w
    deliveries ((row_id, i) ∷ is) w =
        deliveries is (run c sha256 load_artifact render send row_id i w).1

    -- Whatever jobs run one after the other, and whatever the provider answers, each email that it accepts
    -- has one row, and no idempotency key has two: no key is sent twice.
    pub deliveries-Accounted :
        (is : List (ℕ × EmailDeliveryInput)) (w : EmailWorld)
        → Accounted w
        → Accounted (deliveries is w)
    unfolding run
    deliveries-Accounted [] w a = a
    deliveries-Accounted ((row_id, i) ∷ is) w a =
        deliveries-Accounted is _
          (finish-Accounted row_id i (prepare c sha256 load_artifact render i w) w refl a)

    -- Two runs with one key that are both ready before either sends: where the provider accepts both
    -- emails, both are sent, and the second run raises the violation of the unique key.
    pub finish-finish :
        (row1 row2 : ℕ) (i : EmailDeliveryInput) (w : EmailWorld) (ws : ManagerWorkspace)
        (idem : Text) (composed : ComposedEmail) (m : SentMessage)
        → prepare c sha256 load_artifact render i w ≡ ready_to_send ws idem composed
        → send (outbound c sha256 load_artifact render i ws composed) ≡ accepted m
        → let w1 =
            (finish c sha256 load_artifact render send row1 i
              (ready_to_send ws idem composed)
              w).1 in
          let second =
            finish c sha256 load_artifact render send row2 i (ready_to_send ws idem composed) w1 in
          (second.0 ≡ err integrity) × (length second.1.outbox ≡ length w.outbox + 2)
    unfolding email_row
    finish-finish row1 row2 i w ws idem composed m h e =
        let fresh = prepare-fresh i w ws idem composed h in
        let w1 : EmailWorld = record w {
          outbox = w.outbox ++ (mail row1 i w ws idem composed ∷ []);
          emails = w.emails ++ (row row1 i w ws idem composed m ∷ []);
        } in
        let taken : exists_by_idem idem w1.emails ≡ true = ground (
          arith,
          exists_by_idem-append idem w.emails (row row1 i w ws idem composed m),
          text_eq_refl idem,
        ) in
        rw
          (
            finish-accepted row1 i w ws idem composed m e fresh,
            finish-taken row2 i w1 ws idem composed m e taken,
          )
          (
            refl,
            omega (
              arith,
              length-append {0} w1.outbox (mail row1 i w ws idem composed ∷ []),
              length-append {0} w.outbox (mail row1 i w ws idem composed ∷ []),
            ),
          )
