-- ===== src/Client/PullPlanner/Sorting/Cases.antt =====
-- What the first passes do with an item.
use synch.Common.{
  ◌≡◌, refl, subst, Bool, true, false, Bool-cases, Option-cases, none, some, List, ◌∷◌, contains,
  arith, inl, inr, if◌then◌else◌,
}
use synch.Client.PullPlanner.{
  PullEntryStateManifestItem, ValidatedManifestItem, PlannerDeps, PlanOptions, id_of, path_of,
  validate_manifest_item, kind_of, is_rollback, rollback_event,
}
use synch.Client.PullPlanner.Sorting.{
  Sorted, Divided, place, place_valid, sort_items, is_other, latest, divide_one,
}

module _ (deps : PlannerDeps) (options : PlanOptions) where
  pub data PlaceCase (v : ValidatedManifestItem) (rest : Sorted) : Sorted → Type 0 where
    accepts : PlaceCase v rest (record rest { validated = v ∷ rest.validated })
    rolls_back :
        is_rollback (deps.get_entry_by_id (id_of v)) v.item.state ≡ true
        → PlaceCase v rest (record rest {
          rollbacks = rollback_event (deps.get_entry_by_id (id_of v)) v ∷ rest.rollbacks;
        })
    was_applied : contains options.applied_entry_ids (id_of v) ≡ true → PlaceCase v rest rest
    skips :
        is_rollback (deps.get_entry_by_id (id_of v)) v.item.state ≡ false
        → PlaceCase v rest (record rest { skipped = v.item ∷ rest.skipped })

  place-PlaceCase :
      (v : ValidatedManifestItem) (rest : Sorted) → PlaceCase v rest (place deps options v rest)
  unfolding place
  place-PlaceCase v rest =
      elim (Bool-cases (deps.should_apply_remote_path (path_of v) v.item.state.deleted)) [
        | inl e ↦ rw e accepts
        | inr e ↦
            rw e (elim (Bool-cases (is_rollback (deps.get_entry_by_id (id_of v)) v.item.state)) [
              | inl old ↦ rw old (rolls_back old)
              | inr news ↦
                  rw news (elim (Bool-cases (contains options.applied_entry_ids (id_of v))) [
                    | inl a ↦ rw a (was_applied a)
                    | inr a ↦ rw a (skips news)
                  ])
            ])
      ]

  -- An item that is placed, and the items behind it.
  pub record SortStep (item : PullEntryStateManifestItem) (items : List PullEntryStateManifestItem)
      (result : Sorted) : Type 0 where
    pub valid : ValidatedManifestItem
    pub rest : Sorted
    pub of_item : valid.item ≡ item
    pub rest_sorted : sort_items deps options items ≡ some rest
    pub case : PlaceCase valid rest result

  validate-item :
      (item : PullEntryStateManifestItem) {v : ValidatedManifestItem}
      → validate_manifest_item item ≡ some v
      → v.item ≡ item
  unfolding validate_manifest_item
  validate-item item {v} h =
      elim (Option-cases (kind_of item.state.deleted item.state.blob_id item.metadata.hash)) [
        | inl e ↦ absurd (ground arith)
        | inr (k, e) ↦ ground arith
      ]

  pub sort_items-SortStep :
      (item : PullEntryStateManifestItem) (items : List PullEntryStateManifestItem)
      {result : Sorted}
      → sort_items deps options (item ∷ items) ≡ some result
      → SortStep item items result
  unfolding sort_items place_valid
  sort_items-SortStep item items {result} h = elim (Option-cases (validate_manifest_item item)) [
    | inl e ↦ absurd (ground arith)
    | inr (v, e) ↦ elim (Option-cases (sort_items deps options items)) [
      | inl f ↦ absurd (ground arith)
      | inr (rest, f) ↦ record {
        valid = v;
        rest = rest;
        of_item = validate-item item e;
        rest_sorted = f;
        case =
            let same : place deps options v rest ≡ result = ground arith in
            subst (PlaceCase v rest) same (place-PlaceCase v rest);
      }
    ]
  ]

  pub data DivideCase (v : ValidatedManifestItem) (rest : Divided) : Divided → Type 0 where
    was_applied_before :
        contains options.applied_entry_ids (id_of v) ≡ true → DivideCase v rest rest
    is_old :
        is_rollback (deps.get_entry_by_id (id_of v)) v.item.state ≡ true
        → DivideCase v rest (record rest {
          rollbacks = rollback_event (deps.get_entry_by_id (id_of v)) v ∷ rest.rollbacks;
        })
    gives_way :
        is_rollback (deps.get_entry_by_id (id_of v)) v.item.state ≡ false
        → DivideCase v rest (record rest { superseded = v.item ∷ rest.superseded })
    is_context_only : v.item.context_only ≡ true → DivideCase v rest rest
    is_active : DivideCase v rest (record rest { active = v ∷ rest.active })

  context-DivideCase :
      (v : ValidatedManifestItem) (rest : Divided) (context : Bool)
      → v.item.context_only ≡ context
      → DivideCase v rest (if context then rest else record rest { active = v ∷ rest.active })
  context-DivideCase v rest true e = is_context_only e
  context-DivideCase v rest false e = is_active

  pub divide_one-DivideCase :
      (validated : List ValidatedManifestItem) (v : ValidatedManifestItem) (rest : Divided)
      → DivideCase v rest (divide_one deps options validated v rest)
  unfolding divide_one
  divide_one-DivideCase validated v rest =
      elim (Bool-cases (contains options.applied_entry_ids (id_of v))) [
        | inl a ↦ rw a (was_applied_before a)
        | inr a ↦
            rw a
              (elim (Bool-cases
                (is_other deps options (latest deps options (path_of v) none validated) v)) [
                  | inl o ↦
                      rw o
                        (elim (Bool-cases
                          (is_rollback (deps.get_entry_by_id (id_of v)) v.item.state)) [
                            | inl old ↦ rw old (is_old old)
                            | inr news ↦ rw news (gives_way news)
                          ])
                  | inr o ↦ rw o (context-DivideCase v rest v.item.context_only refl)
                ])
      ]
