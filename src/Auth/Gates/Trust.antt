-- ===== src/Auth/Gates/Trust.antt =====
-- app/api/deps.py: what the gates trust.
use multi_tenant_ai_chatbot.Prelude.{
  ℕ, String, ◌≡◌, Bool, true, false, Option, none, some, str_eq, eq_iff, Bool-cases, Option-cases,
  inl, inr,
}
use multi_tenant_ai_chatbot.Auth.Tokens.{
  Jwt, Uuids, AdminSettings, AdminSession, allowed_login_role, verify_admin_token, bearer_token,
}
use multi_tenant_ai_chatbot.Auth.Gates.{
  AdminHeaders, TenantAdminContext, gate, in_dev, require_admin_session, require_tenant_admin,
}

-- the context is that of a verified token in the `Authorization` header
abbrev pub IsFromToken :
    Jwt → Uuids → AdminSettings → (now : ℕ) → AdminHeaders → TenantAdminContext → Type 0
IsFromToken jwt uuids settings now headers context =
    (token : String) × ((session : AdminSession) × ((bearer_token headers.authorization
          ≡ some token)
        × (verify_admin_token jwt uuids settings token now ≡ some session)
        × (context ≡ record {
          tenant_id = session.tenant_id;
          actor_id = some session.actor_id;
          role = session.role;
        })))

abbrev nothing : Option TenantAdminContext
nothing = none

module _ (jwt : Jwt) (uuids : Uuids) (settings : AdminSettings) (now : ℕ)
    (concierge_env : Option String) (headers : AdminHeaders) (context : TenantAdminContext)
    (outside_dev : in_dev concierge_env ≡ false) where
  gate-IsFromToken :
      (allowed : String → Bool)
      → gate jwt uuids settings now allowed concierge_env headers ≡ some context
      → IsFromToken jwt uuids settings now headers context × (allowed context.role ≡ true)
  gate-IsFromToken allowed passed = elim (Option-cases (bearer_token headers.authorization)) [
    | inl missing ↦
        absurd (let h : nothing ≡ some context = rw (missing, outside_dev) at passed in cc)
    | inr (token, sent) ↦ elim (Option-cases (verify_admin_token jwt uuids settings token now)) [
      | inl bad ↦
          absurd (let h : nothing ≡ some context = rw (sent, bad, outside_dev) at passed in cc)
      | inr (session, good) ↦ elim (Bool-cases (allowed session.role)) [
        | inl fits ↦
            let h : some (record {
              tenant_id = session.tenant_id;
              actor_id = some session.actor_id;
              role = session.role;
            })
                ≡ some context =
              rw (sent, good, fits) at passed in
            let e : context ≡ record {
              tenant_id = session.tenant_id;
              actor_id = some session.actor_id;
              role = session.role;
            } =
              cc in
            ((token, (session, (sent, good, e))), rw e fits)
        | inr unfit ↦
            absurd
              (let h : nothing ≡ some context = rw (sent, good, unfit, outside_dev) at passed in cc)
      ]
    ]
  ]

  -- Outside dev the tenant-admin gate lets a request pass only on a verified token of a tenant admin, and
  -- takes tenant and actor from it: the other headers have no say.
  pub require_tenant_admin-IsFromToken :
      require_tenant_admin jwt uuids settings now concierge_env headers ≡ some context
      → IsFromToken jwt uuids settings now headers context × (context.role ≡ "tenant_admin")
  unfolding require_tenant_admin
  require_tenant_admin-IsFromToken passed =
      let (from, role) = gate-IsFromToken (λ role. str_eq role "tenant_admin") passed in
      (from, (eq_iff context.role "tenant_admin").0 role)

  -- The same of the gate for both roles: the role is one that may log in.
  pub require_admin_session-IsFromToken :
      require_admin_session jwt uuids settings now concierge_env headers ≡ some context
      → IsFromToken jwt uuids settings now headers context
        × (allowed_login_role context.role ≡ true)
  unfolding require_admin_session
  require_admin_session-IsFromToken passed = gate-IsFromToken allowed_login_role passed
