-- ===== src/Cms.antt =====
-- app/services/cms_pages.py: `CmsPageService`, over `CmsRepository` (`Cms.Repository`) and the index
-- of app/rag/ingest.py (`Rag.Ingest`). The payload's `updated_at` is left out.
pub mod Repository
pub mod Published
pub mod Changes
pub mod Calls
pub mod Publishing
use multi_tenant_ai_chatbot.Prelude.{
  ℕ, String, Bool, true, false, not, ◌&&◌, ◌||◌, Option, none, some, List, [], ◌∷◌, ◌++◌, is_some,
  leb, ◌==◌, str_eq, if◌then◌else◌,
}
use multi_tenant_ai_chatbot.Prelude.Text.{text_length}
use multi_tenant_ai_chatbot.Prelude.Dict.{lookup, text_key}
use multi_tenant_ai_chatbot.Db.Rows.{Json, uuid, text, texts, CmsPage}
use multi_tenant_ai_chatbot.World.{
  World, Action, cms_not_found, cms_invalid, pure, or_raise, raise_if, attempt, request, ◌>>=◌,
  ◌>>◌,
}
use multi_tenant_ai_chatbot.Tenants.Repository.{AuditEntry, add_audit_log}
use multi_tenant_ai_chatbot.Tools.Args.Calls.{
  ArgValue, only_fields, optional_text, required_text, both,
}
use multi_tenant_ai_chatbot.Rag.Ingest.{
  Hashing, PageText, PreparedChunk, delete_cms_page_chunks, sync_cms_page_index,
}
use Repository.{NewPage, PageChange, create, get, is_of, soft_delete}

pub record CmsActor : Type 0 where
  pub tenant_id : ℕ
  pub actor_id : String
  pub role : String

-- `_ALLOWED_STATUSES`, as the pattern of the bodies has them
unfoldable pub allowed_status : String → Bool
allowed_status s = str_eq s "draft" || str_eq s "published" || str_eq s "archived"

-- `min_length=1, max_length=255`
abbrev pub short_text : String → Bool
short_text s = leb 1 (text_length s) && leb (text_length s) 255

abbrev pub non_empty : String → Bool
non_empty s = leb 1 (text_length s)

abbrev pub page_change :
    Option (Option String × Option String)
    → Option (Option String × (Option String × Option String))
    → Option PageChange
page_change (some (title, slug)) (some (body, (source_url, status))) =
    some
      (record { title = title; slug = slug; body = body; source_url = source_url; status = status })
page_change _ _ = none

-- `CmsPageUpdateBody.model_validate`, then `model_dump(exclude_none=True)`
unfoldable pub validated_update : List (String × ArgValue) → Option PageChange
unfolding allowed_status
validated_update body =
    if only_fields ("title" ∷ "slug" ∷ "body" ∷ "source_url" ∷ "status" ∷ []) body
    then page_change
        (both (optional_text short_text (lookup "title" body))
          (optional_text short_text (lookup "slug" body)))
        (both (optional_text non_empty (lookup "body" body)) (
          both (optional_text (λ s. true) (lookup "source_url" body))
            (optional_text allowed_status (lookup "status" body))))
    else none

-- `CmsPageStatusBody.model_validate`
unfoldable pub validated_status : List (String × ArgValue) → Option String
unfolding allowed_status
validated_status body =
    if only_fields ("status" ∷ []) body
    then required_text allowed_status (lookup "status" body)
    else none

abbrev named : Option String → String → List String
named none name = []
named (some value) name = name ∷ []

-- `sorted(diff.keys())`
unfoldable pub changed_fields : PageChange → List String
changed_fields diff =
    named diff.body "body"
    ++ named diff.slug "slug"
    ++ named diff.source_url "source_url"
    ++ named diff.status "status"
    ++ named diff.title "title"

pub record PagePayload : Type 0 where
  pub id : ℕ
  pub title : String
  pub slug : String
  pub body : String
  pub source_url : Option String
  pub status : String

-- `_to_payload`
abbrev pub to_payload : CmsPage → PagePayload
to_payload page = record {
  id = page.id;
  title = page.title;
  slug = page.slug;
  body = page.body;
  source_url = page.source_url;
  status = page.status;
}

abbrev pub page_text : CmsPage → PageText
page_text page = record {
  tenant_id = page.tenant_id;
  page_id = page.id;
  text = page.body;
  source_title = page.title;
  source_url = page.source_url;
}

abbrev pub page_entry : CmsActor → String → List (String × Json) → AuditEntry
page_entry actor action metadata = record {
  actor_id = some actor.actor_id;
  actor_role = actor.role;
  action = action;
  metadata = metadata;
}

-- `session.begin_nested()`: a savepoint, to which the database goes back at an exception
abbrev pub begin_nested : {A : Type 0} → Action A → Action A
begin_nested = request

-- `_sync_page_index`, of a service with a session
unfoldable pub sync_page_index : Hashing → CmsPage → Action (Unit {0})
unfolding sync_cms_page_index
sync_page_index hashing page = do
  attempt (begin_nested (sync_cms_page_index hashing true (page_text page) page.status))
  pure tt

-- `_delete_page_index`
unfoldable pub delete_page_index : (tenant_id page_id : ℕ) → Action (Unit {0})
unfolding delete_cms_page_chunks
delete_page_index tenant_id page_id = do
  attempt (begin_nested (delete_cms_page_chunks true tenant_id page_id))
  pure tt

abbrev pub status_action : String → String
status_action status =
    if str_eq status "published" then "cms.page_published" else "cms.page_unpublished"

module _ (hashing : Hashing) where
  unfoldable pub create_page : NewPage → CmsActor → Action PagePayload
  unfolding sync_page_index
  create_page new actor = do
    page ← create actor.tenant_id new (some actor.actor_id)
    sync_page_index hashing page
    pure (to_payload page)

  unfoldable pub update_page :
      (page_id : ℕ) → List (String × ArgValue) → CmsActor → Action PagePayload
  unfolding sync_page_index changed_fields
  update_page page_id body actor = do
    diff ← or_raise (validated_update body) cms_invalid
    found ← Repository.update page_id actor.tenant_id diff
    page ← or_raise found cms_not_found
    add_audit_log actor.tenant_id (
        page_entry actor "cms.page_updated"
          (("page_id", uuid page_id) ∷ ("fields", texts (changed_fields diff)) ∷ []))
    sync_page_index hashing page
    pure (to_payload page)

  unfoldable pub set_page_status :
      (page_id : ℕ) → List (String × ArgValue) → CmsActor → Action PagePayload
  unfolding sync_page_index
  set_page_status page_id body actor = do
    status ← or_raise (validated_status body) cms_invalid
    found ← Repository.set_status page_id actor.tenant_id status
    page ← or_raise found cms_not_found
    add_audit_log actor.tenant_id (
        page_entry actor (status_action status)
          (("page_id", uuid page_id) ∷ ("status", text status) ∷ []))
    sync_page_index hashing page
    pure (to_payload page)

unfoldable pub delete_page : (page_id : ℕ) → CmsActor → Action (Unit {0})
unfolding delete_page_index
delete_page page_id actor = do
  found ← get page_id
  raise_if (not (is_of actor.tenant_id found)) cms_not_found
  soft_delete page_id actor.tenant_id
  add_audit_log actor.tenant_id
      (page_entry actor "cms.page_deleted" (("page_id", uuid page_id) ∷ []))
  delete_page_index actor.tenant_id page_id
