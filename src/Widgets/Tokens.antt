-- ===== src/Widgets/Tokens.antt =====
-- app/services/widget_service.py: `WidgetTokenService`, over any store. The logs and the trace span are
-- left out. `ticks` is the clock of the limiters, `now` that of the token, and `session_id` what
-- `uuid4` draws.
pub mod Issued
use multi_tenant_ai_chatbot.Prelude.{
  ℕ, ◌+◌, String, Bool, true, false, not, Option, none, some, List, [], ◌∷◌, any, str_eq,
  if◌then◌else◌,
}
use multi_tenant_ai_chatbot.Db.Rows.{TenantStatus, active}
use multi_tenant_ai_chatbot.RateLimit.TokenBucket.{Limiter, check}
use multi_tenant_ai_chatbot.Tools.Args.Calls.{text, number}
use multi_tenant_ai_chatbot.Auth.Tokens.{Claims, Jwt, Uuids}
use multi_tenant_ai_chatbot.Widgets.Store.{WidgetConfigDomain, WidgetRepository}
use multi_tenant_ai_chatbot.Widgets.Origins.{Urls, canonicalize_origin}

-- `WidgetTokenRefusalReason`
pub data RefusalReason : Type 0 where
  unknown_widget origin_not_allowlisted widget_disabled : RefusalReason
  tenant_not_active rate_limited_per_ip rate_limited_per_widget : RefusalReason

-- `WidgetTokenResponse`
pub record WidgetTokenResponse : Type 0 where
  pub token : String
  pub expires_in : ℕ
  pub session_id : ℕ

-- what `issue_token` returns, or the reason of the `TokenRefused` that it raises
pub data Issue : Type 0 where
  issued : WidgetTokenResponse → Issue
  refused : RefusalReason → Issue

-- `WidgetSettings` of app/services/widget_settings.py
pub record WidgetSettings : Type 0 where
  pub widget_jwt_secret : String
  pub widget_token_ttl_seconds : ℕ

-- the store and the limiters of the service
pub record TokenState (S : Type 0) : Type 0 where
  pub rows : S
  pub per_ip : Limiter
  pub per_widget : Limiter

-- the arguments of `issue_token`, and what it reads of clocks and chance
pub record TokenRequest : Type 0 where
  pub widget_id : ℕ
  pub origin : String
  pub source_ip : String
  pub ticks : ℕ
  pub now : ℕ
  pub session_id : ℕ

abbrev pub is_active : TenantStatus → Bool
is_active active = true
is_active _ = false

abbrev pub is_text : String → Option String → Bool
is_text canon none = false
is_text canon (some s) = str_eq s canon

module _ (jwt : Jwt) (uuids : Uuids) (urls : Urls) (settings : WidgetSettings) where
  -- the payload of `_mint_jwt`
  abbrev pub widget_claims : WidgetConfigDomain → (canon : String) → TokenRequest → Claims
  widget_claims config canon request =
      ("tenant_id", text (uuids.str config.tenant_id))
      ∷ ("widget_id", text (uuids.str config.widget_id))
      ∷ ("origin", text canon)
      ∷ ("session_id", text (uuids.str request.session_id))
      ∷ ("iat", number request.now)
      ∷ ("exp", number (request.now + settings.widget_token_ttl_seconds))
      ∷ []

  abbrev pub response : WidgetConfigDomain → (canon : String) → TokenRequest → WidgetTokenResponse
  response config canon request = record {
    token = jwt.encode (widget_claims config canon request) settings.widget_jwt_secret;
    expires_in = settings.widget_token_ttl_seconds;
    session_id = request.session_id;
  }

  -- an allowed origin has the same canonical form
  abbrev pub is_allowlisted : (canon : String) → WidgetConfigDomain → Bool
  is_allowlisted canon config =
      any (λ allowed. is_text canon (canonicalize_origin urls allowed)) config.allowed_origins

  abbrev pub with_origin : WidgetConfigDomain → TokenRequest → Option String → Issue
  with_origin config request none = refused origin_not_allowlisted
  with_origin config request (some canon) =
      if is_allowlisted canon config
      then issued (response config canon request)
      else refused origin_not_allowlisted

  -- the validation gates
  abbrev pub validated : TokenRequest → Option WidgetConfigDomain → Issue
  validated request none = refused unknown_widget
  validated request (some config) =
      if not config.enabled
      then refused widget_disabled
      else if not (is_active config.tenant_status)
      then refused tenant_not_active
      else with_origin config request (canonicalize_origin urls request.origin)

  unfoldable pub issue_token :
      {S : Type 0} → WidgetRepository S → TokenRequest → TokenState S → Issue × TokenState S
  unfolding canonicalize_origin check
  issue_token repo request st =
      let config = repo.get_by_widget_id request.widget_id st.rows in
      let (per_ip, ip_allowed) = check st.per_ip request.source_ip request.ticks in
      let (per_widget, widget_allowed) =
        check st.per_widget (uuids.str request.widget_id) request.ticks in
      if not ip_allowed
      then (refused rate_limited_per_ip, record st { per_ip = per_ip })
      else if not widget_allowed
      then (refused rate_limited_per_widget, record st { per_ip = per_ip; per_widget = per_widget })
      else (validated request config, record st { per_ip = per_ip; per_widget = per_widget })
