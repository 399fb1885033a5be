-- ===== src/Chat/Rejections.antt =====
-- app/services/chat_service.py: what the visitor is told where a tool rejects its arguments.
use multi_tenant_ai_chatbot.Prelude.{
  ℕ, String, ◌≡◌, refl, false, Option, some, List, [], ◌∷◌, leb, arith,
}
use multi_tenant_ai_chatbot.Prelude.Text.{text_length}
use multi_tenant_ai_chatbot.World.{World, MemoryMessage, ok, err, key_error, ◌>>=◌}
use multi_tenant_ai_chatbot.Router.{rag_search, capture_lead}
use multi_tenant_ai_chatbot.Tools.Args.{
  has_length, valid_rag_search, valid_capture_lead, trim_optional, max_name_chars,
  max_contact_chars,
}
use multi_tenant_ai_chatbot.Tools as Tools
use multi_tenant_ai_chatbot.Tools.{extract_lead_fields}
use multi_tenant_ai_chatbot.Tools.Leads.{clean_intent}
use multi_tenant_ai_chatbot.Chat.{Deps, answer_search, execute_route}

module _ (deps : Deps) (t : ℕ) (s message reason : String) (memory : List MemoryMessage)
    (w : World) where
  -- A message of more than 500 characters on the route of `rag_search` raises `KeyError`: the tool
  -- rejects it, and its result has no answer.
  pub execute_route-long_message :
      leb (text_length message) 500 ≡ false
      → execute_route deps t s message reason memory rag_search w ≡ (err key_error, w)
  unfolding execute_route Tools.rag_search valid_rag_search has_length answer_search ◌>>=◌
  execute_route-long_message long = ground arith

  -- On the route of `capture_lead`, a contact that is found in the message but rejected with the
  -- other fields stores nothing, and the visitor is thanked for the request all the same.
  pub execute_route-rejected_contact :
      (name : Option String) (contact : String)
      → extract_lead_fields deps.env.regex message ≡ (name, some contact)
      → valid_capture_lead deps.env.regex
          (trim_optional name max_name_chars)
          (trim_optional (some contact) max_contact_chars)
          (clean_intent message)
        ≡ false
      → execute_route deps t s message reason memory capture_lead w ≡ (
        ok (record {
          answer = "Thanks — I captured your request. Lead status: invalid_args.";
          route = "workflow";
          used_tools = "capture_lead" ∷ [];
        }),
        w,
      )
  unfolding execute_route Tools.capture_lead ◌>>=◌
  execute_route-rejected_contact name contact extracted invalid = rw (extracted, invalid) refl
