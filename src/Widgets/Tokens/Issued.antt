-- ===== src/Widgets/Tokens/Issued.antt =====
-- app/services/widget_service.py: when `issue_token` issues a token, and what it is good for in
-- app/api/deps.py.
use multi_tenant_ai_chatbot.Prelude.{
  ℕ, ◌+◌, ◌≤◌, ◌<◌, String, ◌≡◌, ◌≢◌, refl, ap, ◌∙◌, sym, true, Option, none, some, eq_iff, arith,
  Bool-cases, Option-cases, inl, inr,
}
use Prim.Native.String.{◌++◌, char_at}
use text.Mathlib.TextLemmas.{cons-append, nil-append}
use multi_tenant_ai_chatbot.Prelude.Text.{lower}
use multi_tenant_ai_chatbot.World.{ok}
use multi_tenant_ai_chatbot.RateLimit.TokenBucket.{check}
use multi_tenant_ai_chatbot.Auth.Tokens.{Jwt, Uuids, bearer_token, partition}
use multi_tenant_ai_chatbot.Auth.Gates.{get_tenant_id_from_widget_token}
use multi_tenant_ai_chatbot.Widgets.Store.{WidgetConfigDomain, WidgetRepository}
use multi_tenant_ai_chatbot.Widgets.Origins.{Urls, canonicalize_origin}
use multi_tenant_ai_chatbot.Widgets.Tokens.{
  WidgetTokenResponse, issued, refused, widget_disabled, tenant_not_active, origin_not_allowlisted,
  rate_limited_per_ip, rate_limited_per_widget, WidgetSettings, TokenState, TokenRequest, is_active,
  widget_claims, response, is_allowlisted, validated, issue_token,
}

module _ (jwt : Jwt) (uuids : Uuids) (urls : Urls) (settings : WidgetSettings) where
  -- the widget is there, enabled, of an active tenant, and its allowlist has the origin's canonical form
  abbrev pub IsAllowed :
      {S : Type 0}
      → WidgetRepository S
      → TokenRequest
      → S
      → WidgetConfigDomain
      → (canon : String) → Type 0
  IsAllowed repo request rows config canon =
      (repo.get_by_widget_id request.widget_id rows ≡ some config)
      × (config.enabled ≡ true)
      × (is_active config.tenant_status ≡ true)
      × (canonicalize_origin urls request.origin ≡ some canon)
      × (is_allowlisted jwt uuids urls settings canon config ≡ true)

  -- the gates that an issued token has passed
  validated-issued :
      (request : TokenRequest) (found : Option WidgetConfigDomain) (given : WidgetTokenResponse)
      → validated jwt uuids urls settings request found ≡ issued given
      → (config : WidgetConfigDomain) × ((canon : String) × ((found ≡ some config)
            × (config.enabled ≡ true)
            × (is_active config.tenant_status ≡ true)
            × (canonicalize_origin urls request.origin ≡ some canon)
            × (is_allowlisted jwt uuids urls settings canon config ≡ true)
            × (given ≡ response jwt uuids urls settings config canon request)))
  validated-issued request none given h = absurd cc
  validated-issued request (some config) given h = elim (Bool-cases config.enabled) [
    | inr off ↦ let k : refused widget_disabled ≡ issued given = rw off at h in absurd cc
    | inl on ↦ elim (Bool-cases (is_active config.tenant_status)) [
      | inr dead ↦
          let k : refused tenant_not_active ≡ issued given = rw (on, dead) at h in absurd cc
      | inl live ↦ elim (Option-cases (canonicalize_origin urls request.origin)) [
        | inl bad ↦
            let k : refused origin_not_allowlisted ≡ issued given = rw (on, live, bad) at h in
            absurd cc
        | inr (canon, canonical) ↦
            elim (Bool-cases (is_allowlisted jwt uuids urls settings canon config)) [
              | inr unlisted ↦
                  let k : refused origin_not_allowlisted ≡ issued given =
                    rw (on, live, canonical, unlisted) at h in
                  absurd cc
              | inl listed ↦
                  let k : issued (response jwt uuids urls settings config canon request)
                      ≡ issued given =
                    rw (on, live, canonical, listed) at h in
                  (config, (canon, (refl, on, live, canonical, listed, cc)))
            ]
      ]
    ]
  ]

  module _ {S : Type 0} (repo : WidgetRepository S) (request : TokenRequest)
      (st : TokenState S) where
    -- A token is issued for a known, enabled widget of an active tenant and an origin in its allowlist,
    -- if both limiters let the call through.
    pub issue_token-issues :
        (config : WidgetConfigDomain) (canon : String)
        → (check st.per_ip request.source_ip request.ticks).1 ≡ true
        → (check st.per_widget (uuids.str request.widget_id) request.ticks).1 ≡ true
        → IsAllowed repo request st.rows config canon
        → (issue_token jwt uuids urls settings repo request st).0
          ≡ issued (response jwt uuids urls settings config canon request)
    unfolding issue_token
    issue_token-issues config canon ip widget (known, enabled, live, canonical, listed) =
        rw (ip, widget, known, enabled, live, canonical, listed) refl

    -- A token is issued only if both limiters let the call through, the widget is known, enabled and of
    -- an active tenant, and its allowlist has the origin's canonical form; and it is the token of that
    -- widget and that origin.
    pub issue_token-IsAllowed :
        (given : WidgetTokenResponse)
        → (issue_token jwt uuids urls settings repo request st).0 ≡ issued given
        → ((check st.per_ip request.source_ip request.ticks).1 ≡ true)
          × ((check st.per_widget (uuids.str request.widget_id) request.ticks).1 ≡ true)
          × ((config : WidgetConfigDomain) × ((canon : String) × (IsAllowed repo request st.rows
                    config canon
                  × (given ≡ response jwt uuids urls settings config canon request))))
    unfolding issue_token
    issue_token-IsAllowed given h =
        elim (Bool-cases (check st.per_ip request.source_ip request.ticks).1) [
          | inr often ↦
              let k : refused rate_limited_per_ip ≡ issued given = rw often at h in absurd cc
          | inl ip ↦
              elim (Bool-cases
                (check st.per_widget (uuids.str request.widget_id) request.ticks).1) [
                  | inr often ↦
                      let k : refused rate_limited_per_widget ≡ issued given =
                        rw (ip, often) at h in
                      absurd cc
                  | inl widget ↦
                      let k : validated jwt uuids urls settings request
                            (repo.get_by_widget_id request.widget_id st.rows)
                          ≡ issued given =
                        rw (ip, widget) at h in
                      let (config, (canon, (known, on, live, canonical, listed, e))) =
                        validated-issued request (repo.get_by_widget_id request.widget_id st.rows)
                          given k in
                      (ip, widget, (config, (canon, ((known, on, live, canonical, listed), e))))
                ]
        ]

partition-bearer : (token : String) → partition ("Bearer " ++ token) ≡ ("Bearer", token)
unfolding partition
partition-bearer token =
    rw
      (
        cons-append (char_at "B" 0) "earer " token,
        cons-append (char_at "e" 0) "arer " token,
        cons-append (char_at "a" 0) "rer " token,
        cons-append (char_at "r" 0) "er " token,
        cons-append (char_at "e" 0) "r " token,
        cons-append (char_at "r" 0) " " token,
        cons-append (char_at " " 0) "" token,
        nil-append token,
      )
      refl

bearer_token-bearer :
    (token : String) → token ≢ "" → bearer_token (some ("Bearer " ++ token)) ≡ some token
unfolding bearer_token lower
bearer_token-bearer token h = rw (partition-bearer token) (ground (arith, h, eq_iff token ""))

-- PyJWT gives back the claims that were signed under the same secret, from the time they were issued
-- until they expire.
abbrev pub DecodesWidget :
    Jwt → Uuids → Urls → WidgetSettings → WidgetConfigDomain → TokenRequest → Type 0
DecodesWidget jwt uuids urls settings config request =
    (canon : String) (now : ℕ)
    → canonicalize_origin urls request.origin ≡ some canon
    → let claims = widget_claims jwt uuids urls settings config canon request in
      request.now ≤ now
      → now < request.now + settings.widget_token_ttl_seconds
      → jwt.decode (jwt.encode claims settings.widget_jwt_secret) settings.widget_jwt_secret now
        ≡ some claims

-- Where PyJWT decodes what it signed until it expires, and a tenant's id is read back from its text, a
-- token that was issued, and is not the empty text, names the tenant of the widget it was issued for
-- when it is sent as a bearer token, from then until it expires.
pub issue_token-names_tenant :
    (jwt : Jwt) (uuids : Uuids) (urls : Urls) (settings : WidgetSettings)
    → {S : Type 0} (repo : WidgetRepository S) (request : TokenRequest) (st : TokenState S)
    → (given : WidgetTokenResponse) (config : WidgetConfigDomain) (now : ℕ)
    → DecodesWidget jwt uuids urls settings config request
    → request.now ≤ now
    → now < request.now + settings.widget_token_ttl_seconds
    → uuids.parse (uuids.str config.tenant_id) ≡ some config.tenant_id
    → given.token ≢ ""
    → repo.get_by_widget_id request.widget_id st.rows ≡ some config
    → (issue_token jwt uuids urls settings repo request st).0 ≡ issued given
    → get_tenant_id_from_widget_token jwt uuids settings.widget_jwt_secret now
        (some ("Bearer " ++ given.token))
      ≡ ok config.tenant_id
unfolding get_tenant_id_from_widget_token
issue_token-names_tenant jwt uuids urls settings repo request st given config now decodes from until
      parses full known h =
    let (ip, widget, (found, (canon, (allowed, e)))) =
      issue_token-IsAllowed jwt uuids urls settings repo request st given h in
    let (there, on, live, canonical, listed) = allowed in
    let k : some found ≡ some config = sym there ∙ known in
    let same : found ≡ config = cc in
    let t : given.token
        ≡ jwt.encode (widget_claims jwt uuids urls settings config canon request)
            settings.widget_jwt_secret =
      ap (λ r. r.token) e
      ∙ ap
          (λ c.
            jwt.encode (widget_claims jwt uuids urls settings c canon request)
              settings.widget_jwt_secret)
          same in
    rw (bearer_token-bearer given.token full)
      (rw (t, decodes canon now canonical from until, parses) refl)
