-- ===== src/Email/Delivery.antt =====
-- `run` of app/miniagents/email_delivery.py. The rendering of a template, the reading of an artifact, the
-- hash and the providers are outside. `prepare` is the run up to its send, and only reads.
use vof_backend.Db.Models.{ManagerWorkspace}
use vof_backend.Decision.Repo.{key}
use vof_backend.Decision.Service.{workspace_key}
use vof_backend.Email.Composer.{composed_of}
use vof_backend.Email.Messages.{
  EmailDeliveryInput, Outbound, SendOutcome, accepted, not_implemented, send_raised, SkipReason,
  unknown_workspace, inbox_not_provisioned, oauth_disconnected, already_sent_idempotent,
  no_template_or_precomposed, artifact_load_failed, oauth_connector_unavailable, send_failed,
  EmailDeliveryResult, skipped, sent, EmailWorld,
}
use vof_backend.Email.Models.{
  DeliveryRoute, agentmail, oauth_personal, TriggerKind, post_call_summary, daily_brief,
  missed_decisions, action_item_handler, RecipientClass, trigger_text, class_text, ComposedEmail,
  SentMessage, EmailMessage,
}
use vof_backend.Email.Repo.{exists_by_idem, create_email}
use vof_backend.Errors.{runtime_error, ok, err}
use vof_backend.Exec.{Exec}
use vof_backend.Prelude.{
  find_row, if◌then◌else◌, get_or_else, ℕ, Bool, true, false, Option, none, some, [], ◌∷◌, ◌++◌,
}
use vof_backend.Storage.{storage_key}
use vof_backend.Text.{Text, codes, is_empty, CaseMap}
use vof_backend.Text.Hex.{uuid_text}

abbrev is_agentmail : DeliveryRoute → Bool
is_agentmail agentmail = true
is_agentmail oauth_personal = false

-- `_TEMPLATE_MAP` and `_artifact_storage_key`, which know the same triggers
unfoldable pub template_of : TriggerKind → Option Text
template_of post_call_summary = some (codes "post_call_summary.j2")
template_of daily_brief = some (codes "daily_brief.j2")
template_of missed_decisions = some (codes "missed_decisions.j2")
template_of action_item_handler = none

unfoldable pub artifact_storage_key : (workspace_id : ℕ) → TriggerKind → ℕ → Option Text
unfolding storage_key
artifact_storage_key ws post_call_summary ref =
    some (storage_key ws (codes "calls" ∷ uuid_text ref ∷ codes "canonical_summary.json" ∷ []))
artifact_storage_key ws daily_brief ref =
    some (storage_key ws (codes "briefs" ∷ uuid_text ref ∷ codes "brief.json" ∷ []))
artifact_storage_key ws missed_decisions ref =
    some (storage_key ws (codes "briefs" ∷ uuid_text ref ∷ codes "missed_decisions.json" ∷ []))
artifact_storage_key ws action_item_handler ref = none

unfoldable pub build_message_id : EmailDeliveryInput → Text
unfolding trigger_text uuid_text
build_message_id i =
    codes "<"
    ++ (trigger_text i.trigger_kind
        ++ (codes "."
            ++ (uuid_text i.trigger_ref_id
                ++ (codes "@vof-" ++ (uuid_text i.workspace_id ++ codes ">")))))

-- Where the run stands before the send: skipped, raised, or with all that a send needs.
pub data Preparation : Type 0 where
  skip : SkipReason → Preparation
  render_raised : Preparation
  ready_to_send : (ws : ManagerWorkspace) (idem : Text) (composed : ComposedEmail) → Preparation

module _ (c : CaseMap) (sha256 : Text → Text) where
  unfoldable pub build_idem_key : EmailDeliveryInput → Text
  unfolding trigger_text class_text uuid_text
  build_idem_key i = sha256 (
      uuid_text i.workspace_id
      ++ (codes ":"
          ++ (trigger_text i.trigger_kind
              ++ (codes ":"
                  ++ (uuid_text i.trigger_ref_id
                      ++ (codes ":"
                          ++ (class_text i.recipient_class
                              ++ (codes ":" ++ c.lower i.recipient_addr))))))))

  unfoldable pub idem_key : EmailDeliveryInput → Text
  unfolding build_idem_key
  idem_key i = elim i.idempotency_key [
    | none ↦ build_idem_key i
    | some k ↦ if is_empty k then build_idem_key i else k
  ]

  -- `render` is none where the template raises. It also reads the tone, which the workspace configures.
  module _ {Artifact : Type 0} (load_artifact : Text → Option Artifact)
      (render : Text → Artifact → ManagerWorkspace → RecipientClass → Option Text) where
    unfoldable pub compose : EmailDeliveryInput → ManagerWorkspace → Preparation
    unfolding template_of artifact_storage_key composed_of idem_key
    compose i ws = elim i.precomposed [
      | some composed ↦ ready_to_send ws (idem_key i) composed
      | none ↦ elim (template_of i.trigger_kind) [
        | none ↦ skip no_template_or_precomposed
        | some template ↦ elim (artifact_storage_key ws.id i.trigger_kind i.trigger_ref_id) [
          | none ↦ skip artifact_load_failed
          | some key ↦ elim (load_artifact key) [
            | none ↦ skip artifact_load_failed
            | some artifact ↦ elim (render template artifact ws i.recipient_class) [
              | none ↦ render_raised
              | some rendered ↦ ready_to_send ws (idem_key i) (composed_of c ws.name rendered)
            ]
          ]
        ]
      ]
    ]

    -- The preflight of the route
    unfoldable pub route_skip :
        EmailDeliveryInput → ManagerWorkspace → EmailWorld → Option SkipReason
    route_skip i ws w = elim i.delivery_route [
      | agentmail ↦
          if is_empty (get_or_else ws.email_inbox_id []) then some inbox_not_provisioned else none
      | oauth_personal ↦ if w.oauth_connected i.workspace_id then none else some oauth_disconnected
    ]

    unfoldable pub prepare : EmailDeliveryInput → EmailWorld → Preparation
    unfolding route_skip exists_by_idem compose
    prepare i w = elim (find_row workspace_key i.workspace_id w.workspaces) [
      | none ↦ skip unknown_workspace
      | some ws ↦ elim (route_skip i ws w) [
        | some reason ↦ skip reason
        | none ↦
            if exists_by_idem (idem_key i) w.emails
            then skip already_sent_idempotent
            else compose i ws
      ]
    ]

    unfoldable pub outbound : EmailDeliveryInput → ManagerWorkspace → ComposedEmail → Outbound
    unfolding build_message_id
    outbound i ws composed = record {
      route = i.delivery_route;
      inbox_id = if is_agentmail i.delivery_route then ws.email_inbox_id else none;
      oauth_user_id = i.oauth_user_id;
      to = i.recipient_addr;
      composed = composed;
      reply_to = if is_agentmail i.delivery_route then ws.email_inbox_addr else none;
      message_id = build_message_id i;
      workspace_header = if is_agentmail i.delivery_route then none else some i.workspace_id;
    }

    unfoldable pub email_row :
        (row_id : ℕ) → EmailDeliveryInput → ManagerWorkspace → Text → SentMessage → EmailMessage
    email_row row_id i ws idem m = record {
      id = row_id;
      workspace_id = i.workspace_id;
      organization_id = ws.organization_id;
      provider = i.delivery_route;
      provider_message_id = m.message_id;
      provider_thread_id = m.thread_id;
      trigger_kind = i.trigger_kind;
      trigger_ref_id = i.trigger_ref_id;
      recipient_class = i.recipient_class;
      recipient_addr = i.recipient_addr;
      sent_at = m.sent_at;
      correlation_idempotency_key = idem;
    }

    -- The row of what was sent
    unfoldable pub after_send :
        (row_id : ℕ)
        → EmailDeliveryInput
        → ManagerWorkspace
        → (idem : Text) → ComposedEmail
        → SendOutcome
        → Exec EmailWorld EmailDeliveryResult
    unfolding outbound email_row create_email
    after_send row_id i ws idem composed not_implemented w =
        (ok (skipped oauth_connector_unavailable), w)
    after_send row_id i ws idem composed (send_raised class) w =
        (ok (skipped (send_failed class)), w)
    after_send row_id i ws idem composed (accepted m) w =
        let (r, emails) = create_email (email_row row_id i ws idem m) w.emails in
        (
          elim r [ ok _ ↦ ok (sent m) | err e ↦ err e ],
          record w { outbox = w.outbox ++ (outbound i ws composed ∷ []); emails = emails },
        )

    module _ (send : Outbound → SendOutcome) where
      unfoldable pub finish :
          (row_id : ℕ) → EmailDeliveryInput → Preparation → Exec EmailWorld EmailDeliveryResult
      unfolding outbound after_send
      finish row_id i (skip reason) w = (ok (skipped reason), w)
      finish row_id i render_raised w = (err runtime_error, w)
      finish row_id i (ready_to_send ws idem composed) w =
          after_send row_id i ws idem composed (send (outbound i ws composed)) w

      unfoldable pub run : (row_id : ℕ) → EmailDeliveryInput → Exec EmailWorld EmailDeliveryResult
      unfolding prepare finish
      run row_id i w = finish row_id i (prepare i w) w
