-- ===== src/Settings/Bounds.antt =====
-- app/services/tenant_settings.py: the bounds that the settings keep.
use multi_tenant_ai_chatbot.Prelude.{
  ℕ, ◌≤◌, String, ◌≡◌, Bool, Option, some, List, [], ◌∷◌, ◌++◌, All, All-append, find_row,
  update_where, ◌==◌, str_eq, arith, Bool-cases, Option-cases, inl, inr,
}
use multi_tenant_ai_chatbot.Prelude.Dict.{text_key}
use multi_tenant_ai_chatbot.Db.Rows.{TenantSettings}
use multi_tenant_ai_chatbot.World.{World, uuid4, ◌>>=◌}
use multi_tenant_ai_chatbot.Tenants.Repository.{add_audit_log}
use multi_tenant_ai_chatbot.Tools.Args.Calls.{ArgValue}
use multi_tenant_ai_chatbot.Settings.{
  ttl_min, ttl_max, rate_min, rate_max, TenantSettingsBody, TenantSettingsActor, validated_settings,
  default_settings, create_if_absent, get_or_create, with_body, update_settings, get_settings,
  put_settings,
}

-- the bounds of `TenantSettingsBody`
abbrev pub IsInBounds : TenantSettings → Type 0
IsInBounds s =
    (ttl_min ≤ s.default_invite_ttl_seconds)
    × (s.default_invite_ttl_seconds ≤ ttl_max)
    × (rate_min ≤ s.rate_limit_chat_per_minute)
    × (s.rate_limit_chat_per_minute ≤ rate_max)
    × (rate_min ≤ s.rate_limit_token_per_minute)
    × (s.rate_limit_token_per_minute ≤ rate_max)

validated-IsInBounds :
    (read_int : ArgValue → Option ℕ) (body : List (String × ArgValue)) (b : TenantSettingsBody)
    → validated_settings read_int body ≡ some b
    → (s : TenantSettings) → IsInBounds (with_body b s)
unfolding validated_settings
validated-IsInBounds read_int body b h s = ground arith

update_where-IsInBounds :
    (q : TenantSettings → Bool) (b : TenantSettingsBody) (rows : List TenantSettings)
    → ((s : TenantSettings) → IsInBounds (with_body b s))
    → All IsInBounds rows
    → All IsInBounds (update_where q (with_body b) rows)
update_where-IsInBounds q b [] fits h = tt
update_where-IsInBounds q b (s ∷ rows) fits h = elim (Bool-cases (q s)) [
  | inl e ↦ rw e (fits s, update_where-IsInBounds q b rows fits h.1)
  | inr e ↦ rw e (h.0, update_where-IsInBounds q b rows fits h.1)
]

default-IsInBounds : (id t : ℕ) → IsInBounds (default_settings id t)
default-IsInBounds id t = ground arith

module _ (t : ℕ) (w : World) (bounded : All IsInBounds w.settings) where
  -- Reading the settings, which makes the default ones where there are none, keeps all in bounds.
  pub get_settings-IsInBounds : All IsInBounds (get_settings t w).1.settings
  unfolding get_settings get_or_create create_if_absent uuid4 ◌>>=◌
  get_settings-IsInBounds = elim (Option-cases (find_row (λ s. s.tenant_id == t) w.settings)) [
    | inl missing ↦ rw missing (
        All-append IsInBounds w.settings (default_settings w.next_id t ∷ []) bounded
          (default-IsInBounds w.next_id t, tt))
    | inr (row, known) ↦ rw known bounded
  ]

  -- Whatever the body and the actor's role, an update leaves the settings of every tenant in bounds.
  pub put_settings-IsInBounds :
      (read_int : ArgValue → Option ℕ) (body : List (String × ArgValue))
      (actor : TenantSettingsActor)
      → All IsInBounds (put_settings read_int t body actor w).1.settings
  unfolding put_settings update_settings get_or_create create_if_absent add_audit_log uuid4 ◌>>=◌
  put_settings-IsInBounds read_int body actor =
      elim (Bool-cases (str_eq actor.role "tenant_manager")) [
        | inr other ↦ rw other bounded
        | inl manager ↦ elim (Option-cases (validated_settings read_int body)) [
          | inl invalid ↦ rw (manager, invalid) bounded
          | inr (b, valid) ↦
              let fits = validated-IsInBounds read_int body b valid in
              elim (Option-cases (find_row (λ s. s.tenant_id == t) w.settings)) [
                | inl missing ↦
                    rw (manager, valid, missing)
                      (update_where-IsInBounds (λ s. s.id == w.next_id) b
                        (w.settings ++ default_settings w.next_id t ∷ []) fits
                        (All-append IsInBounds w.settings (default_settings w.next_id t ∷ [])
                          bounded (default-IsInBounds w.next_id t, tt)))
                | inr (row, known) ↦
                    rw (manager, valid, known)
                      (update_where-IsInBounds (λ s. s.id == row.id) b w.settings fits bounded)
              ]
        ]
      ]
