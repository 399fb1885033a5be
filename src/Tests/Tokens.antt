-- ===== src/Tests/Tokens.antt =====
-- The theorems on the tokens of app/services/widget_service.py, at concrete inputs.
use multi_tenant_ai_chatbot.Prelude.{
  ◌+◌, ◌&&◌, leb, ltb, str_eq, if◌then◌else◌, arith, String, ◌≡◌, refl, subst, true, false, eq_iff,
  some, none, [], ◌∷◌,
}
use Prim.Native.String.{◌++◌}
use multi_tenant_ai_chatbot.Prelude.Text.{lower}
use multi_tenant_ai_chatbot.Db.Rows.{active}
use multi_tenant_ai_chatbot.World.{ok}
use multi_tenant_ai_chatbot.RateLimit.TokenBucket.{
  Limiter, check, bucket_for, new_bucket, try_consume,
}
use multi_tenant_ai_chatbot.Auth.Tokens.{Jwt, Uuids}
use multi_tenant_ai_chatbot.Auth.Gates.{get_tenant_id_from_widget_token}
use multi_tenant_ai_chatbot.Widgets.Store.{WidgetConfigDomain}
use multi_tenant_ai_chatbot.Widgets.Memory.{Rows, memory_repository}
use multi_tenant_ai_chatbot.Widgets.Origins.{UrlParts, Urls, canonicalize_origin}
use multi_tenant_ai_chatbot.Widgets.Tokens.{
  WidgetTokenResponse, issued, WidgetSettings, TokenState, TokenRequest, widget_claims, response,
  issue_token,
}
use multi_tenant_ai_chatbot.Widgets.Tokens.Issued.{
  IsAllowed, issue_token-IsAllowed, issue_token-names_tenant,
}

abbrev config : WidgetConfigDomain
config = record {
  id = 90;
  tenant_id = 1;
  widget_id = 91;
  allowed_origins = "https://acme.io" ∷ [];
  enabled = true;
  tenant_status = active;
  theme_json = none;
  greeting = none;
}

abbrev acme_parts : UrlParts
acme_parts = record { scheme = "https"; hostname = some "Acme.io"; port = some (some 443) }

-- every text is parsed as one origin
abbrev urls : Urls
urls = record { urlsplit = λ s. some acme_parts; str_of_int = λ n. "443" }

abbrev uuids : Uuids
uuids = record { str = λ n. "tenant one"; parse = λ s. some 1 }

abbrev settings : WidgetSettings
settings = record { widget_jwt_secret = "secret"; widget_token_ttl_seconds = 900 }

abbrev request : TokenRequest
request = record {
  widget_id = 91;
  origin = "https://Acme.io:443";
  source_ip = "10.0.0.1";
  ticks = 0;
  now = 1000;
  session_id = 7;
}

abbrev limiter : Limiter
limiter = record { capacity = 10; refill_num = 1; refill_den = 60; buckets = [] }

abbrev st : TokenState Rows
st = record { rows = (91, config) ∷ []; per_ip = limiter; per_widget = limiter }

abbrev unsigned : Jwt
unsigned = record { encode = λ claims secret. "token"; decode = λ token secret now. none }

-- one token
abbrev jwt : Jwt
jwt = record {
  encode = λ claims secret. "token";
  decode = λ token secret now.
      if str_eq token "token" && str_eq secret "secret" && leb 1000 now && ltb now (1000 + 900)
      then some (widget_claims unsigned uuids urls settings config "https://acme.io" request)
      else none;
}

abbrev given : WidgetTokenResponse
given = record { token = "token"; expires_in = 900; session_id = 7 }

given_issued : (issue_token jwt uuids urls settings memory_repository request st).0 ≡ issued given
unfolding issue_token canonicalize_origin lower memory_repository check bucket_for new_bucket
    try_consume
given_issued = refl

issue_token-IsAllowed_example :
    ((check limiter "10.0.0.1" 0).1 ≡ true)
    × ((check limiter "tenant one" 0).1 ≡ true)
    × ((found : WidgetConfigDomain) × ((canon : String) × (IsAllowed jwt uuids urls settings
              memory_repository request
              ((91, config) ∷ [])
              found
              canon
            × (given ≡ response jwt uuids urls settings found canon request))))
issue_token-IsAllowed_example =
    issue_token-IsAllowed jwt uuids urls settings memory_repository request st given given_issued

issue_token-names_tenant_example :
    get_tenant_id_from_widget_token jwt uuids "secret" 1500 (some ("Bearer " ++ "token")) ≡ ok 1
unfolding memory_repository canonicalize_origin lower
issue_token-names_tenant_example =
    issue_token-names_tenant jwt uuids urls settings memory_repository request st given config 1500
      (λ canon now e from until.
        let f : "https://acme.io" ≡ canon = cc in
        let late : leb 1000 now ≡ true = ground arith in
        let early : ltb now 1900 ≡ true = ground arith in
        rw (late, early)
          (subst
            (λ c.
              some (widget_claims jwt uuids urls settings config "https://acme.io" request)
              ≡ some (widget_claims jwt uuids urls settings config c request))
            f refl))
      (omega arith) (omega arith) refl (λ e. let b : false ≡ true = (eq_iff "token" "").1 e in cc)
      refl given_issued
