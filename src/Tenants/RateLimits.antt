-- ===== src/Tenants/RateLimits.antt =====
-- `record_usage` of app/services/tenant_service.py.
use multi_tenant_ai_chatbot.Prelude.{
  ℕ, ◌+◌, ◌-◌, String, ◌≡◌, refl, Bool, ◌&&◌, some, List, [], ◌∷◌, ◌++◌, find_row, select, ◌==◌,
  str_eq, if◌then◌else◌, arith,
}
use multi_tenant_ai_chatbot.Db.Rows.{TenantUsage, Tenant}
use multi_tenant_ai_chatbot.World.{World, ok, uuid4, ◌>>=◌}
use multi_tenant_ai_chatbot.Tenants.Repository.{
  UsageEvent, counts_usage, total_units, limits_action, add_audit_log, get_rate_limit,
  count_usage_since, audit_row, get_by_id,
}
use multi_tenant_ai_chatbot.Tenants.Repository
use multi_tenant_ai_chatbot.Tenants.{require_tenant_exists, record_usage}

-- the units of an action that a tenant used in the window that ends now
abbrev pub used_now : ℕ → String → ℕ → World → ℕ
used_now t action window w =
    total_units (select (counts_usage t action (w.clock - window)) w.tenant_usage)

total_units-append :
    (p : TenantUsage → Bool) (rows : List TenantUsage) (row : TenantUsage)
    → total_units (select p (rows ++ row ∷ []))
      ≡ total_units (select p rows) + (if p row then row.units else 0)
total_units-append p [] row = ground arith
total_units-append p (r ∷ rows) row = ground (arith, total_units-append p rows row)

-- Recording a usage event of a known tenant adds its units to what the tenant has used of that
-- feature, in every window, and to nothing else: no other tenant's count and no other feature's.
pub used_now-record_usage :
    (w : World) (t u : ℕ) (action : String) (window : ℕ) (usage : UsageEvent) (tenant : Tenant)
    → find_row (λ x. x.id == t) w.tenants ≡ some tenant
    → let (r, w') = record_usage t usage w in
      (r ≡ ok tt)
      × (used_now u action window w'
          ≡ used_now u action window w
            + (if t == u && str_eq usage.feature action then usage.units else 0))
unfolding record_usage require_tenant_exists get_by_id Repository.record_usage uuid4 ◌>>=◌
used_now-record_usage w t u action window usage tenant known =
    rw known (refl, rw (total_units-append) (ground arith))
