-- ===== src/Escalations/Service/Changes.antt =====
-- `patch` of app/services/escalation.py: who may change a ticket, and what a change does.
use multi_tenant_ai_chatbot.Prelude.{
  ℕ, String, ◌≡◌, ◌≢◌, refl, ◌∙◌, Bool, true, false, Option, none, some, List, [], ◌∷◌, ◌++◌,
  find_row, update_where, find_row-update_other, ==-refl, ◌==◌, str_eq, arith,
}
use multi_tenant_ai_chatbot.Prelude.Dict.{lookup, text_key}
use multi_tenant_ai_chatbot.Db.{ticket_status_permitted}
use multi_tenant_ai_chatbot.Db.Rows.{text, uuid, EscalationTicket}
use multi_tenant_ai_chatbot.World.{
  World, ok, err, db_error, escalation_invalid, escalation_forbidden, request, uuid4, ◌>>=◌,
}
use multi_tenant_ai_chatbot.Tenants.Repository.{add_audit_log, audit_row}
use multi_tenant_ai_chatbot.Tools.Args.{optional}
use multi_tenant_ai_chatbot.Tools.Args.Calls.{ArgValue}
use multi_tenant_ai_chatbot.Escalations.Repository.{
  get, patched, update_found, update_status_and_assignee,
}
use multi_tenant_ai_chatbot.Escalations.Service.{
  EscalationActor, validated, has_assignee_field, allowed_status, to_payload, resolve_assignee,
  change_entry, audit_status, audit_assignee, patch_ticket, patch,
}

-- the text is the id of an administrator of the tenant
abbrev pub names_admin : (String → Option ℕ) → (tenant_id : ℕ) → String → World → Bool
names_admin parse_uuid tenant_id assignee_id w = elim (parse_uuid assignee_id) [
  | none ↦ false
  | some id ↦ elim (find_row (λ u. u.id == id) w.admin_users) [
    | none ↦ false
    | some u ↦ u.tenant_id == tenant_id
  ]
]

resolve_assignee-refuses :
    (parse_uuid : String → Option ℕ) (t : ℕ) (assignee_id : String) (w : World)
    → str_eq assignee_id "" ≡ false
    → names_admin parse_uuid t assignee_id w ≡ false
    → resolve_assignee parse_uuid t (some assignee_id) w ≡ (err escalation_invalid, w)
unfolding resolve_assignee ◌>>=◌
resolve_assignee-refuses parse_uuid t assignee_id w named foreign = ground arith

module _ (parse_uuid : String → Option ℕ) (w : World) (ticket_id : ℕ)
    (body : List (String × ArgValue)) (actor : EscalationActor) (ticket : EscalationTicket)
    (known : find_row (λ t. t.id == ticket_id) w.escalation_tickets ≡ some ticket) where
  -- A ticket of another tenant is refused, and nothing is changed, for any valid body.
  pub patch-forbidden :
      (status assignee_id : Option String)
      → validated body ≡ some (status, assignee_id)
      → optional allowed_status status ≡ true
      → ticket.tenant_id ≢ actor.tenant_id
      → patch parse_uuid ticket_id body actor w ≡ (err escalation_forbidden, w)
  unfolding patch get ◌>>=◌
  patch-forbidden status assignee_id valid allowed other =
      let foreign : (ticket.tenant_id == actor.tenant_id) ≡ false = ground arith in
      rw (valid, allowed, known, foreign) refl

  written :
      (status assignee_id : Option String) (update : Bool)
      → find_row
          (λ t. t.id == ticket_id)
          (update_where
            (λ t. t.id == ticket.id)
            (patched status assignee_id update)
            w.escalation_tickets)
        ≡ some (patched status assignee_id update ticket)
  unfolding patched
  written status assignee_id update =
      find_row-update_other (λ (t : EscalationTicket). t.id == ticket_id) (λ t. t.id == ticket.id)
        (patched status assignee_id update) w.escalation_tickets ticket (λ t. refl) known
      ∙ rw (==-refl ticket.id)

  module _ (own : ticket.tenant_id ≡ actor.tenant_id)
      (no_assignee : lookup "assignee_id" body ≡ none) where
    -- The status "pending", which the service allows, ends in a database error on a ticket of the
    -- actor's tenant, and the request's rollback leaves the database as it was.
    pub patch-pending :
        validated body ≡ some (some "pending", none)
        → let (r, w') = request (patch parse_uuid ticket_id body actor) w in
          (r ≡ err db_error) × (w'.db ≡ w.db)
    unfolding request patch patch_ticket get update_status_and_assignee update_found patched
        resolve_assignee ticket_status_permitted allowed_status ◌>>=◌
    patch-pending valid =
        let mine : (ticket.tenant_id == actor.tenant_id) ≡ true = ground arith in
        rw (valid, known, mine, no_assignee, known) (refl, refl)

    -- A new status that the service allows and the database permits is written to the ticket of the
    -- actor's tenant: the payload and the ticket found afterwards show it, the assignee stays, and one
    -- entry with the old and the new status is in the audit log.
    pub patch-writes_status :
        (status : String)
        → validated body ≡ some (some status, none)
        → allowed_status status ≡ true
        → ticket_status_permitted status ≡ true
        → str_eq status ticket.status ≡ false
        → let (r, w') = patch parse_uuid ticket_id body actor w in
          let changed = record ticket { status = status } in
          (r ≡ ok (to_payload none changed))
          × (find_row (λ t. t.id == ticket_id) w'.escalation_tickets ≡ some changed)
          × (w'.audit_logs
              ≡ w.audit_logs
                ++ audit_row w.next_id actor.tenant_id (
                    change_entry actor "escalation.status_changed" (
                      ("ticket_id", uuid ticket_id)
                      ∷ ("from", text ticket.status)
                      ∷ ("to", text status)
                      ∷ []))
                  ∷ [])
    unfolding patch patch_ticket get update_status_and_assignee update_found patched
        resolve_assignee audit_status audit_assignee add_audit_log uuid4 ◌>>=◌
    patch-writes_status status valid allowed permitted new =
        let mine : (ticket.tenant_id == actor.tenant_id) ≡ true = ground arith in
        rw (valid, allowed, known, mine, no_assignee, known, permitted, new)
          (refl, written (some status) none false, refl)

  -- On a ticket of the actor's tenant, an assignee that is not the empty text and no id of an
  -- administrator of that tenant is refused, whatever allowed status comes with it, and nothing is
  -- changed.
  pub patch-foreign_assignee :
      (status : Option String) (assignee_id : String)
      → validated body ≡ some (status, some assignee_id)
      → has_assignee_field body ≡ true
      → optional allowed_status status ≡ true
      → ticket.tenant_id ≡ actor.tenant_id
      → str_eq assignee_id "" ≡ false
      → names_admin parse_uuid actor.tenant_id assignee_id w ≡ false
      → patch parse_uuid ticket_id body actor w ≡ (err escalation_invalid, w)
  unfolding patch patch_ticket get ◌>>=◌
  patch-foreign_assignee status assignee_id valid sent allowed own named foreign =
      let mine : (ticket.tenant_id == actor.tenant_id) ≡ true = ground arith in
      rw
        (
          valid,
          allowed,
          known,
          mine,
          sent,
          resolve_assignee-refuses parse_uuid actor.tenant_id assignee_id w named foreign,
        )
        refl
