-- ===== src/Tests/Pages.antt =====
-- The theorems on app/rag/ingest.py and app/services/cms_pages.py, at concrete inputs.
use multi_tenant_ai_chatbot.Prelude.{
  ◌+◌, String, Bool, true, false, ◌≡◌, refl, some, none, List, [], ◌∷◌, map, select, find_row, ◌==◌,
}
use multi_tenant_ai_chatbot.Prelude.Words.{normalized}
use multi_tenant_ai_chatbot.Db.Rows.{CmsPage, uuid, text}
use multi_tenant_ai_chatbot.World.{ok, err, cms_not_found}
use multi_tenant_ai_chatbot.Tenants.Repository.{audit_row}
use multi_tenant_ai_chatbot.Tools.Args.Calls.{ArgValue}
use multi_tenant_ai_chatbot.Tools.Args.Calls as Calls
use multi_tenant_ai_chatbot.Rag.Chunking.{chunk_text, chunk_loop}
use multi_tenant_ai_chatbot.Rag.Ingest.{Hashing, prepare_cms_page_chunks, row_of, is_chunk_of}
use multi_tenant_ai_chatbot.Rag.Ingest.Index.{other_rows}
use multi_tenant_ai_chatbot.Cms.{
  CmsActor, to_payload, page_text, page_entry, validated_update, validated_status, update_page,
  set_page_status, delete_page,
}
use multi_tenant_ai_chatbot.Cms.Repository.{NewPage, with_status}
use multi_tenant_ai_chatbot.Cms.Published.{IsWellFormed}
use multi_tenant_ai_chatbot.Cms.Calls.{
  creates, updates, sets_status, deletes_page, CmsCall, calls, calls-IsWellFormed,
}
use multi_tenant_ai_chatbot.Cms.Publishing.{
  cms_calls-refused, set_page_status-stands, set_page_status-publishes,
}
use multi_tenant_ai_chatbot.Tests.{world, page, with_pages}

abbrev hashing : Hashing
hashing = record { sha256 = λ s. s; uuid5 = λ t p i s. 1000 + i }

abbrev editor : CmsActor
editor = record { tenant_id = 1; actor_id = "ann@acme.io"; role = "tenant_admin" }

abbrev outsider : CmsActor
outsider = record { tenant_id = 2; actor_id = "eve@globex.io"; role = "tenant_admin" }

abbrev draft : CmsPage
draft = with_status "draft" page

abbrev publish : List (String × ArgValue)
publish = ("status", Calls.text "published") ∷ []

abbrev retitle : List (String × ArgValue)
retitle = ("title", Calls.text "Hours") ∷ []

abbrev about : NewPage
about = record {
  title = "About";
  slug = "about";
  body = "We are Acme.";
  source_url = none;
  status = "published";
}

-- while a page is made, rows of the index cannot be deleted
abbrev a_day : List (Bool × CmsCall)
a_day =
    (false, creates about editor)
    ∷ (true, updates 100 retitle editor)
    ∷ (true, sets_status 100 (("status", Calls.text "archived") ∷ []) editor)
    ∷ (true, deletes_page 100 outsider)
    ∷ []

calls-IsWellFormed_example : IsWellFormed (calls hashing a_day world)
calls-IsWellFormed_example =
    calls-IsWellFormed hashing a_day world (tt, (refl, (refl, (refl, tt)))) (tt, tt)

set_page_status-publishes_example :
    let chunks = prepare_cms_page_chunks hashing (page_text draft) 1000 in
    let v = (set_page_status hashing 70 publish editor (with_pages (draft ∷ []))).1 in
    (select (is_chunk_of 1 70) v.rag_chunks ≡ map row_of chunks)
    × (other_rows (page_text draft) v.rag_chunks ≡ [])
unfolding validated_status prepare_cms_page_chunks chunk_text chunk_loop normalized
    Calls.only_fields
set_page_status-publishes_example =
    set_page_status-publishes hashing (with_pages (draft ∷ [])) 70 draft editor refl refl publish
      refl refl (refl, tt)

set_page_status-stands_example :
    let (r, v) = set_page_status hashing 70 publish editor (with_pages (draft ∷ [])) in
    (r ≡ ok (to_payload page))
    × (find_row (λ p. p.id == 70) v.cms_pages ≡ some page)
    × (v.audit_logs
        ≡ audit_row 100 1 (
            page_entry editor "cms.page_published"
              (("page_id", uuid 70) ∷ ("status", text "published") ∷ []))
          ∷ [])
unfolding validated_status Calls.only_fields
set_page_status-stands_example =
    set_page_status-stands hashing (with_pages (draft ∷ [])) 70 draft editor refl refl "published"
      publish refl

cms_calls-refused_example :
    (update_page hashing 70 retitle outsider (with_pages (page ∷ []))
      ≡ (err cms_not_found, with_pages (page ∷ [])))
    × (set_page_status hashing 70 publish outsider (with_pages (page ∷ []))
        ≡ (err cms_not_found, with_pages (page ∷ [])))
    × (delete_page 70 outsider (with_pages (page ∷ []))
        ≡ (err cms_not_found, with_pages (page ∷ [])))
unfolding validated_status validated_update Calls.only_fields
cms_calls-refused_example =
    cms_calls-refused hashing (with_pages (page ∷ [])) 70 outsider
      (record { title = some "Hours"; slug = none; body = none; source_url = none; status = none })
      retitle refl "published" publish refl refl
