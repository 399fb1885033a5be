-- ===== src/Widgets/Config/Update.antt =====
-- app/services/widget_service.py: what `update_widget_config` leaves in a store that keeps the laws.
use multi_tenant_ai_chatbot.Prelude.{
  ℕ, String, ◌≡◌, ◌≢◌, refl, ap, ◌∙◌, sym, Bool, true, false, not, ◌&&◌, Option, some, List, [],
  ◌∷◌, insert_by, sort_by, ◌||◌, str_eq, eq_iff, arith, Bool-cases, inl, inr,
}
use multi_tenant_ai_chatbot.Widgets.Store.{
  WidgetConfigDomain, WidgetValues, WidgetRepository, with_values, values_of, IsPlain, Laws,
}
use multi_tenant_ai_chatbot.Widgets.Config.{
  AuditLogger, saved, audit_failed, mem, difference, sorted_difference, origin_entries, log_all,
  update_widget_config,
}

mem-difference :
    (o : String) (xs ys : List String) → mem o (difference xs ys) ≡ (mem o xs && not (mem o ys))
mem-difference o [] ys = refl
mem-difference o (x ∷ xs) ys = elim (Bool-cases (str_eq o x)) [
  | inl same ↦
      let e : o ≡ x = (eq_iff o x).0 same in
      let m : mem x ys ≡ mem o ys = ap (λ z. mem z ys) (sym e) in
      let k : mem x xs ≡ mem o xs = ap (λ z. mem z xs) (sym e) in
      ground (arith, m, k, mem-difference o xs ys)
  | inr apart ↦ ground (arith, mem-difference o xs ys)
]

mem-insert_by :
    (before : String → String → Bool) (o x : String) (xs : List String)
    → mem o (insert_by before x xs) ≡ (str_eq o x || mem o xs)
mem-insert_by before o x [] = refl
mem-insert_by before o x (y ∷ xs) = ground (arith, mem-insert_by before o x xs)

mem-sort_by :
    (before : String → String → Bool) (o : String) (xs : List String)
    → mem o (sort_by before xs) ≡ mem o xs
unfolding sort_by
mem-sort_by before o [] = refl
mem-sort_by before o (x ∷ xs) =
    mem-insert_by before o x (sort_by before xs)
    ∙ ap (λ b. str_eq o x || b) (mem-sort_by before o xs)

-- The origins on record as added, or removed, are exactly those that are new, or gone.
pub mem-sorted_difference :
    (o : String) (xs ys : List String)
    → mem o (sorted_difference xs ys) ≡ (mem o xs && not (mem o ys))
unfolding sorted_difference
mem-sorted_difference o xs ys = mem-sort_by _ o (difference xs ys) ∙ mem-difference o xs ys

module _ {S L : Type 0} (repo : WidgetRepository S) (audit_logger : AuditLogger L)
    (IsValid : S → Type 0) (laws : Laws repo IsValid) (t : ℕ) (request : WidgetValues)
    (actor_id : Option String) (s : S) (l : L) (previous : WidgetConfigDomain) (valid : IsValid s)
    (known : repo.get_by_tenant_id t s ≡ some previous) (plain : IsPlain request) where
  -- what the loops over the origins do
  abbrev logged : Bool × L
  logged =
      log_all repo audit_logger t
        (origin_entries actor_id previous.widget_id previous.allowed_origins
          request.allowed_origins)
        l

  -- Over any store that obeys the laws, in a valid state of it, for a tenant with a config and a request
  -- whose theme and greeting are absent or not empty: if every audit entry is written, the update is
  -- returned and stored, the audit log is what the entries made it, and the other tenants' configs are
  -- as they were.
  pub update_widget_config-saves :
      logged.0 ≡ true
      → let (r, (s', l')) = update_widget_config repo audit_logger t request actor_id s l in
        (r ≡ saved (with_values request previous))
        × (repo.get_by_tenant_id t s' ≡ some (with_values request previous))
        × (l' ≡ logged.1)
        × ((u : ℕ) → t ≢ u → repo.get_by_tenant_id u s' ≡ repo.get_by_tenant_id u s)
  unfolding update_widget_config
  update_widget_config-saves all =
      let (returned, (back, valid')) = laws.update_some t request s previous valid plain known in
      rw (known, returned, all) (refl, back, refl, λ u ne. laws.update_other t u request s valid ne)

  -- Over any store that obeys the laws, in a valid state of it, for a tenant with a config, where the
  -- themes and greetings of the request and of that config are absent or not empty: if an audit entry
  -- raises, the exception goes on, and the config of the tenant is what it was before the call, as are
  -- those of the other tenants.
  pub update_widget_config-restores :
      IsPlain (values_of previous)
      → logged.0 ≡ false
      → let (r, (s', l')) = update_widget_config repo audit_logger t request actor_id s l in
        (r ≡ audit_failed)
        × (repo.get_by_tenant_id t s' ≡ some previous)
        × ((u : ℕ) → t ≢ u → repo.get_by_tenant_id u s' ≡ repo.get_by_tenant_id u s)
  unfolding update_widget_config
  update_widget_config-restores was_plain raised =
      let (returned, (back, valid')) = laws.update_some t request s previous valid plain known in
      let s1 = (repo.update_by_tenant_id t request s).1 in
      let (again, (restored, valid2)) =
        laws.update_some t (values_of previous) s1 (with_values request previous) valid' was_plain
          back in
      rw (known, returned, raised)
        (
          refl,
          restored,
          λ u ne.
              laws.update_other t u (values_of previous) s1 valid' ne
              ∙ laws.update_other t u request s valid ne,
        )
