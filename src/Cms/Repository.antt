-- ===== src/Cms/Repository.antt =====
-- app/repositories/cms_repo.py: `CmsRepository`, with the constraint on the slugs of a tenant's
-- pages. An update that keeps within the constraint of the other pages is one that the database takes.
use multi_tenant_ai_chatbot.Prelude.{
  ℕ, String, Bool, true, false, ◌&&◌, not, Option, none, some, List, [], ◌∷◌, ◌++◌, any, select,
  find_row, update_where, or_else, or_option, ◌==◌, str_eq, if◌then◌else◌,
}
use multi_tenant_ai_chatbot.Db.{Db}
use multi_tenant_ai_chatbot.Db.Rows.{CmsPage}
use multi_tenant_ai_chatbot.World.{
  Action, db_error, pure, gets, modify_db, raise_if, uuid4, ◌>>=◌, ◌>>◌,
}

-- the rows of the query; its order, by the time of the last update, is left out
unfoldable pub list_pages : ℕ → Action (List CmsPage)
list_pages tenant_id = gets (λ w. select (λ p. p.tenant_id == tenant_id) w.cms_pages)

-- `uq_cms_pages_tenant_slug`: another page of the tenant has the slug
abbrev pub slug_taken : (page_id tenant_id : ℕ) (slug : String) → CmsPage → Bool
slug_taken page_id tenant_id slug p =
    not (p.id == page_id) && p.tenant_id == tenant_id && str_eq p.slug slug

-- the arguments of `create`
pub record NewPage : Type 0 where
  pub title : String
  pub slug : String
  pub body : String
  pub source_url : Option String
  pub status : String

abbrev pub page_row : (id tenant_id : ℕ) → NewPage → (created_by : Option String) → CmsPage
page_row id tenant_id new created_by = record {
  id = id;
  tenant_id = tenant_id;
  title = new.title;
  slug = new.slug;
  body = new.body;
  source_url = new.source_url;
  status = new.status;
  created_by = created_by;
}

unfoldable pub create : (tenant_id : ℕ) → NewPage → (created_by : Option String) → Action CmsPage
create tenant_id new created_by = do
  id ← uuid4
  taken ← gets (λ w. any (slug_taken id tenant_id new.slug) w.cms_pages)
  raise_if taken db_error
  let page = page_row id tenant_id new created_by
  modify_db (λ db. record db { cms_pages = db.cms_pages ++ page ∷ [] })
  pure page

unfoldable pub get : ℕ → Action (Option CmsPage)
get page_id = gets (λ w. find_row (λ p. p.id == page_id) w.cms_pages)

unfoldable pub write_page : (page_id : ℕ) → (CmsPage → CmsPage) → Db → Db
write_page page_id change db = record db {
  cms_pages = update_where (λ p. p.id == page_id) change db.cms_pages;
}

-- the fields of `CmsPageUpdateBody` that are given
pub record PageChange : Type 0 where
  pub title : Option String
  pub slug : Option String
  pub body : Option String
  pub source_url : Option String
  pub status : Option String

-- the loop over the field names
abbrev pub changed : PageChange → CmsPage → CmsPage
changed diff p = record p {
  title = or_else diff.title p.title;
  slug = or_else diff.slug p.slug;
  body = or_else diff.body p.body;
  source_url = or_option diff.source_url p.source_url;
  status = or_else diff.status p.status;
}

abbrev pub is_of : ℕ → Option CmsPage → Bool
is_of tenant_id none = false
is_of tenant_id (some p) = p.tenant_id == tenant_id

-- the part of `update` below the lookup
unfoldable pub update_found :
    (page_id tenant_id : ℕ) → PageChange → Option CmsPage → Action (Option CmsPage)
update_found page_id tenant_id diff none = pure none
update_found page_id tenant_id diff (some page) =
    if not (page.tenant_id == tenant_id) then pure none else (do
      let new = changed diff page
      taken ← gets (λ w. any (slug_taken page_id tenant_id new.slug) w.cms_pages)
      raise_if taken db_error
      modify_db (write_page page_id (changed diff))
      pure (some new))

unfoldable pub update : (page_id tenant_id : ℕ) → PageChange → Action (Option CmsPage)
unfolding get update_found write_page
update page_id tenant_id diff = do found ← get page_id; update_found page_id tenant_id diff found

abbrev pub with_status : String → CmsPage → CmsPage
with_status status p = record p { status = status }

unfoldable pub set_found :
    (page_id tenant_id : ℕ) (status : String) → Option CmsPage → Action (Option CmsPage)
set_found page_id tenant_id status none = pure none
set_found page_id tenant_id status (some page) =
    if not (page.tenant_id == tenant_id) then pure none else (do
      modify_db (write_page page_id (with_status status))
      pure (some (with_status status page)))

unfoldable pub set_status : (page_id tenant_id : ℕ) (status : String) → Action (Option CmsPage)
unfolding get set_found write_page
set_status page_id tenant_id status = do
  found ← get page_id
  set_found page_id tenant_id status found

-- the row stays, as `archived`
unfoldable pub soft_delete : (page_id tenant_id : ℕ) → Action Bool
unfolding get write_page
soft_delete page_id tenant_id = do
  found ← get page_id
  if not (is_of tenant_id found)
      then pure false
      else (do modify_db (write_page page_id (with_status "archived")); pure true)
