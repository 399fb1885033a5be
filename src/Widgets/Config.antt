-- ===== src/Widgets/Config.antt =====
-- app/services/widget_service.py: `WidgetConfigService`, over any store and any audit log, whose
-- writes may raise.
pub mod Update
use Prim.Native.Nat.{Ordering}
use Prim.Native.String.{compare}
use multi_tenant_ai_chatbot.Prelude.{
  ℕ, String, Bool, true, false, not, Option, none, some, List, [], ◌∷◌, ◌++◌, any, map, select,
  sort_by, str_eq, if◌then◌else◌,
}
use multi_tenant_ai_chatbot.Db.Rows.{Json, text, uuid}
use multi_tenant_ai_chatbot.Tenants.Repository.{AuditEntry}
use multi_tenant_ai_chatbot.Widgets.Store.{
  WidgetConfigDomain, WidgetValues, WidgetRepository, values_of,
}

-- `add_audit_log` of a tenant, where `false` is an exception
pub record AuditLogger (L : Type 0) : Type 0 where
  pub add_audit_log : (tenant_id : ℕ) → AuditEntry → L → Bool × L

-- the config, or `WidgetConfigNotFound`, or the exception of the audit log
pub data Saved : Type 0 where
  saved : WidgetConfigDomain → Saved
  not_found audit_failed : Saved

abbrev str_before : String → String → Bool
str_before a b = elim (compare a b) [ Ordering.lt ↦ true | _ ↦ false ]

abbrev pub mem : String → List String → Bool
mem o origins = any (str_eq o) origins

-- `set(xs) - set(ys)`
abbrev pub difference : List String → List String → List String
difference [] ys = []
difference (x ∷ xs) ys =
    if mem x ys
    then difference xs ys
    else if mem x xs
    then difference xs ys
    else x ∷ difference xs ys

-- `sorted(set(xs) - set(ys))`
unfoldable pub sorted_difference : List String → List String → List String
unfolding sort_by
sorted_difference xs ys = sort_by str_before (difference xs ys)

abbrev pub origin_entry :
    (actor_id : Option String) (action : String) (widget_id : ℕ) (origin : String) → AuditEntry
origin_entry actor_id action widget_id origin = record {
  actor_id = actor_id;
  actor_role = "tenant_admin";
  action = action;
  metadata = ("origin", text origin) ∷ ("widget_id", uuid widget_id) ∷ [];
}

-- the entries of an update, the added origins first
unfoldable pub origin_entries :
    (actor_id : Option String) (widget_id : ℕ) (previous new : List String) → List AuditEntry
unfolding sorted_difference
origin_entries actor_id widget_id previous new =
    map (origin_entry actor_id "widget.origin_added" widget_id) (sorted_difference new previous)
    ++ map (origin_entry actor_id "widget.origin_removed" widget_id)
        (sorted_difference previous new)

module _ {S L : Type 0} (repo : WidgetRepository S) (audit_logger : AuditLogger L) where
  -- the loops, up to the first exception
  unfoldable pub log_all : (tenant_id : ℕ) → List AuditEntry → L → Bool × L
  log_all tenant_id [] l = (true, l)
  log_all tenant_id (entry ∷ entries) l =
      let (logged, l') = audit_logger.add_audit_log tenant_id entry l in
      let later = log_all tenant_id entries l' in if logged then later else (false, l')

  unfoldable pub get_for_tenant : (tenant_id : ℕ) → S → Saved
  get_for_tenant tenant_id s = elim (repo.get_by_tenant_id tenant_id s) [
    | none ↦ not_found
    | some row ↦ saved row
  ]

  abbrev pub log_update :
      (tenant_id : ℕ) (actor_id : Option String)
      → (previous : WidgetConfigDomain) → WidgetValues
      → Option WidgetConfigDomain × S
      → L
      → Saved × (S × L)
  log_update tenant_id actor_id previous request (none, s) l = (not_found, (s, l))
  log_update tenant_id actor_id previous request (some updated, s) l =
      let (logged, l') =
        log_all tenant_id
          (origin_entries actor_id updated.widget_id previous.allowed_origins
            request.allowed_origins)
          l in
      if logged
      then (saved updated, (s, l'))
      else (audit_failed, ((repo.update_by_tenant_id tenant_id (values_of previous) s).1, l'))

  abbrev pub update_found :
      (tenant_id : ℕ)
      → WidgetValues
      → (actor_id : Option String) → Option WidgetConfigDomain
      → S
      → L
      → Saved × (S × L)
  update_found tenant_id request actor_id none s l = (not_found, (s, l))
  update_found tenant_id request actor_id (some previous) s l =
      log_update tenant_id actor_id previous request (repo.update_by_tenant_id tenant_id request s)
        l

  unfoldable pub update_widget_config :
      (tenant_id : ℕ) → WidgetValues → (actor_id : Option String) → S → L → Saved × (S × L)
  unfolding log_all origin_entries
  update_widget_config tenant_id request actor_id s l =
      update_found tenant_id request actor_id (repo.get_by_tenant_id tenant_id s) s l
