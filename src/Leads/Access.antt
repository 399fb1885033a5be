-- ===== src/Leads/Access.antt =====
-- app/api/routes/leads.py: whose leads a request sees.
use mathlib.Core.List.{reverse, reverse_aux}
use multi_tenant_ai_chatbot.Prelude.{
  ℕ, ◌≤◌, String, ◌≡◌, subst, length-take-le, false, Option, List, [], ◌∷◌, All, All-take, length,
  take, select, ◌==◌, eq_of_==, str_eq, arith, Bool-cases, Option-cases, inl, inr,
}
use multi_tenant_ai_chatbot.Db.Rows.{Lead}
use multi_tenant_ai_chatbot.World.{World, Result, ok, err, http_forbidden, ◌>>=◌, gets}
use multi_tenant_ai_chatbot.Auth.Tokens.{Jwt, Uuids, AdminSettings}
use multi_tenant_ai_chatbot.Auth.Gates.{
  AdminHeaders, TenantAdminContext, in_dev, require_admin_session,
}
use multi_tenant_ai_chatbot.Auth.Gates.Trust.{IsFromToken, require_admin_session-IsFromToken}
use multi_tenant_ai_chatbot.Leads.{list_leads, require_lead_access, list_by_tenant, safe_limit}

abbrev pub IsOf : ℕ → Lead → Type 0
IsOf t l = l.tenant_id ≡ t

select-IsOf : (t : ℕ) (leads : List Lead) → All (IsOf t) (select (λ l. l.tenant_id == t) leads)
select-IsOf t [] = tt
select-IsOf t (l ∷ leads) = elim (Bool-cases (l.tenant_id == t)) [
  | inl own ↦ rw own (eq_of_== l.tenant_id t own, select-IsOf t leads)
  | inr other ↦ rw other (select-IsOf t leads)
]

All-reverse_aux :
    (P : Lead → Type 0) (xs ys : List Lead) → All P xs → All P ys → All P (reverse_aux xs ys)
All-reverse_aux P [] ys h k = k
All-reverse_aux P (x ∷ xs) ys h k = All-reverse_aux P xs (x ∷ ys) h.1 (h.0, k)

abbrev refusal : Result (List Lead)
refusal = err http_forbidden

-- A request that is shown leads, outside dev, came with a verified token, and the leads are of that
-- token's tenant, at most 500 of them.
pub list_leads-IsOf :
    (jwt : Jwt) (uuids : Uuids) (settings : AdminSettings) (now : ℕ) (concierge_env : Option String)
    (headers : AdminHeaders) (limit : ℕ) (w : World) (leads : List Lead)
    → in_dev concierge_env ≡ false
    → (list_leads (require_admin_session jwt uuids settings now concierge_env headers) limit w).0
      ≡ ok leads
    → (context : TenantAdminContext) × (IsFromToken jwt uuids settings now headers context
        × All (IsOf context.tenant_id) leads
        × (length leads ≤ 500))
unfolding list_leads require_lead_access list_by_tenant gets ◌>>=◌
list_leads-IsOf jwt uuids settings now concierge_env headers limit w leads outside shown =
    elim (Option-cases (require_admin_session jwt uuids settings now concierge_env headers)) [
      | inl refused ↦ let k : refusal ≡ ok leads = rw refused at shown in absurd cc
      | inr (context, passed) ↦ elim (Bool-cases (str_eq context.role "tenant_manager")) [
        | inl manager ↦ let k : refusal ≡ ok leads = rw (passed, manager) at shown in absurd cc
        | inr other ↦
            let k : ok (
                  take (safe_limit limit)
                    (reverse (select (λ l. l.tenant_id == context.tenant_id) w.leads)))
                ≡ ok leads =
              rw (passed, other) at shown in
            let e : take (safe_limit limit)
                  (reverse (select (λ l. l.tenant_id == context.tenant_id) w.leads))
                ≡ leads =
              cc in
            let (from, role) =
              require_admin_session-IsFromToken jwt uuids settings now concierge_env headers context
                outside passed in
            let own = All-take (IsOf context.tenant_id) (safe_limit limit) _ (
              All-reverse_aux (IsOf context.tenant_id) _ [] (select-IsOf context.tenant_id w.leads)
                tt) in
            let few =
              length-take-le (safe_limit limit)
                (reverse (select (λ l. l.tenant_id == context.tenant_id) w.leads)) in
            (
              context,
              (
                from,
                subst (All (IsOf context.tenant_id)) e own,
                subst (λ ls. length ls ≤ 500) e (omega (arith, few)),
              ),
            )
      ]
    ]
