-- ===== src/AgentConfig/Readback.antt =====
-- app/services/agent_config.py and app/services/platform_guardrails.py: what is read after an update.
use multi_tenant_ai_chatbot.Prelude.{
  ℕ, String, ◌≡◌, refl, ◌∙◌, true, some, find_row, find_row-append_none, find_row-update_other,
  ◌==◌, ==-refl, Option-cases, inl, inr,
}
use multi_tenant_ai_chatbot.Db.Rows.{Rails, TenantAgentConfig}
use multi_tenant_ai_chatbot.World.{World, ok, uuid4, ◌>>=◌}
use multi_tenant_ai_chatbot.Tenants.Repository.{add_audit_log}
use multi_tenant_ai_chatbot.AgentConfig.{
  AgentConfigBody, AgentConfigActor, acceptable, cleaned, validated_config, is_config_of,
  get_by_tenant, get_config, rails_of, new_config, with_rails, upsert_config, upsert, put_config,
  snapshot,
}

module _ (t : ℕ) (w : World) (persona : String) (rails : Rails) where
  upsert-found :
      let (r, v) = upsert t persona rails w in
      (row : TenantAgentConfig) × ((r ≡ ok tt)
        × (find_row (is_config_of t) v.agent_configs ≡ some row)
        × (row.persona ≡ persona)
        × (row.tenant_rails_json ≡ rails))
  unfolding upsert get_by_tenant upsert_config uuid4 ◌>>=◌
  upsert-found = elim (Option-cases (find_row (is_config_of t) w.agent_configs)) [
    | inl missing ↦
        let row = new_config w.next_id t persona rails in
        (
          row,
          (
            rw missing refl,
            rw missing
                (find_row-append_none (is_config_of t) w.agent_configs row missing (==-refl t)),
            refl,
            refl,
          ),
        )
    | inr (row, known) ↦ (
      with_rails persona rails row,
      (
        rw known refl,
        rw known (
            find_row-update_other (is_config_of t) (λ c. c.id == row.id) (with_rails persona rails)
              w.agent_configs row (λ y. refl) known
            ∙ rw (==-refl row.id) refl),
        refl,
        refl,
      ),
    )
  ]

-- An acceptable body is stored with its chips and topics cleaned: the update returns that, and so do
-- later reads of the configuration; the guardrails' view shows its topics and refusal tone.
pub put_config-reads_back :
    (t : ℕ) (body : AgentConfigBody) (actor : AgentConfigActor) (w : World)
    → acceptable body ≡ true
    → let (r, v) = put_config t body actor w in
      (r ≡ ok (cleaned body))
      × (get_config t v ≡ (ok (cleaned body), v))
      × (snapshot t v ≡ (
        ok (record {
          tenant_blocked_topics = (cleaned body).tenant_blocked_topics;
          tenant_refusal_tone = body.tenant_refusal_tone;
        }),
        v,
      ))
unfolding put_config validated_config get_config snapshot get_by_tenant add_audit_log uuid4 ◌>>=◌
put_config-reads_back t body actor w good =
    let (row, (okay, found, same, rails)) =
      upsert-found t w body.persona_name (rails_of (cleaned body)) in
    rw good (rw (okay, found, same, rails) (refl, refl, refl))
