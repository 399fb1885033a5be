-- ===== src/Widgets/Origins.antt =====
-- app/services/widget_service.py: `_canonicalize_origin` and `normalize_origin`, and the validation of
-- `WidgetConfigUpdateRequest` of app/domain/widget.py. `urlsplit` and `str` of a port are parameters.
use multi_tenant_ai_chatbot.Prelude.{
  ℕ, String, not, ◌||◌, Option, none, some, List, [], ◌∷◌, any, ◌==◌, str_eq, if◌then◌else◌,
}
use Prim.Native.String.{◌++◌}
use multi_tenant_ai_chatbot.Prelude.Text.{lower}

-- `SplitResult`: its scheme, its `hostname`, `none` for an empty or missing one, and its `port`, where
-- the outer `none` is a `ValueError`
pub record UrlParts : Type 0 where
  pub scheme : String
  pub hostname : Option String
  pub port : Option (Option ℕ)

-- `urlsplit`, where `none` is a `ValueError`
pub record Urls : Type 0 where
  pub urlsplit : String → Option UrlParts
  pub str_of_int : ℕ → String

-- `_DEFAULT_PORTS.get(scheme)`, of the two schemes that get there
abbrev default_port : String → ℕ
default_port scheme = if str_eq scheme "http" then 80 else 443

abbrev canonical_at : Urls → (scheme host : String) → Option (Option ℕ) → Option String
canonical_at urls scheme host none = none
canonical_at urls scheme host (some none) = some (scheme ++ "://" ++ host)
canonical_at urls scheme host (some (some port)) =
    if port == default_port scheme
    then some (scheme ++ "://" ++ host)
    else some (scheme ++ "://" ++ host ++ ":" ++ urls.str_of_int port)

abbrev canonical_host : Urls → UrlParts → Option String → Option String
canonical_host urls parts none = none
canonical_host urls parts (some hostname) =
    let canonical = canonical_at urls parts.scheme (lower hostname) parts.port in
    if str_eq hostname "" then none else canonical

abbrev canonical_parts : Urls → Option UrlParts → Option String
canonical_parts urls none = none
canonical_parts urls (some parts) =
    let canonical = canonical_host urls parts parts.hostname in
    if not (str_eq parts.scheme "http" || str_eq parts.scheme "https") then none else canonical

-- `_canonicalize_origin`, and `normalize_origin`, whose `ValueError` is `none`
unfoldable pub canonicalize_origin : Urls → String → Option String
canonicalize_origin urls origin = canonical_parts urls (urls.urlsplit origin)

abbrev add_first : Option String → Option (List String) → Option (List String)
add_first (some canon) (some rest) = some (canon ∷ rest)
add_first _ _ = none

-- `_normalize_origins`: without repetition, in order; `none` is a validation error
unfoldable pub normalize_origins : Urls → (seen : List String) → List String → Option (List String)
unfolding canonicalize_origin
normalize_origins urls seen [] = some []
normalize_origins urls seen (raw ∷ origins) = elim (canonicalize_origin urls raw) [
  | none ↦ none
  | some canon ↦
      let again = normalize_origins urls seen origins in
      let new = add_first (some canon) (normalize_origins urls (canon ∷ seen) origins) in
      if any (str_eq canon) seen then again else new
]
