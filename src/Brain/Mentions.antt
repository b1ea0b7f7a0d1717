-- ===== src/Brain/Mentions.antt =====
-- What a run of the brain updater does with pages that are there.
use mathlib.Core.List.{append_assoc, append-nil}
use vof_backend.Brain.Gained.{
  Gained, AllThere, Gained-trans, Gained-refl, AllThere-update, with_entry, appended-Gained,
}
use vof_backend.Brain.History.{appended, append_timeline-found}
use vof_backend.Brain.Slug.{Entity, resolve_slug}
use vof_backend.Brain.Store.{TimelineEntry, BrainPage, Brain, find_page, get_page}
use vof_backend.Brain.Updater.{
  UpdateRun, UpdateResult, mention_entry, mention_page, update_entity, update_entities,
}
use vof_backend.Errors.{Result, ok}
use vof_backend.Exec.{>>=-ok}
use vof_backend.Prelude.{
  All, All-weaken, if◌then◌else◌, Bool-cases, Option-cases, is_some, ◌≡◌, refl, sym, ap, ◌∙◌, inl,
  inr, true, false, some, List, [], ◌∷◌, ◌++◌, arith,
}
use vof_backend.Text.{Text, is_empty, text_eq, CaseMap}

module _ (c : CaseMap) (u : UpdateRun) where
  -- The slugs of the entities with a name
  abbrev pub named_slugs : List Entity → List Text
  named_slugs [] = []
  named_slugs (e ∷ es) =
      let rest = named_slugs es in if is_empty e.name then rest else resolve_slug c e ∷ rest

  -- One mention for each entity with a name whose page is `k`.
  abbrev pub mentions_in : Text → List Text → List TimelineEntry
  mentions_in k [] = []
  mentions_in k (slug ∷ slugs) =
      let rest = mentions_in k slugs in if text_eq slug k then mention_entry u ∷ rest else rest

-- The page of an entity with a name is there.
abbrev pub IsKnown : CaseMap → Brain → Entity → Type 0
IsKnown c b e = is_empty e.name ≡ false → is_some (find_page (resolve_slug c e) b.pages) ≡ true

-- What an action of the updater does on pages that are there.
pub record Went (k : Text) (p : BrainPage) (added : List TimelineEntry) (b : Brain)
    (r : Result UpdateResult × Brain) (upserts appends : List Text) : Type 0 where
  pub result : UpdateResult
  pub after : Brain
  pub returned : r ≡ (ok result, after)
  pub gained : Gained k p added b after
  pub there : AllThere b after
  pub no_upsert : result.pages_upserted ≡ upserts
  pub appended_to : result.timeline_appends ≡ appends

module _ (c : CaseMap) (u : UpdateRun) where
  mention_returns :
      (acc : UpdateResult) (e : Entity) (b : Brain) (q : BrainPage)
      → is_empty e.name ≡ false
      → find_page (resolve_slug c e) b.pages ≡ some q
      → update_entity c u acc e b ≡ (
        ok (record acc { timeline_appends = acc.timeline_appends ++ (resolve_slug c e ∷ []) }),
        appended u.now (resolve_slug c e) (mention_entry u) q b,
      )
  unfolding update_entity get_page mention_page
  mention_returns acc e b q n there =
      ground (arith, append_timeline-found u.now (resolve_slug c e) (mention_entry u) b q there)

  module _ (k : Text) where
    update_entity-Went :
        (acc : UpdateResult) (e : Entity) (b : Brain) (p : BrainPage)
        → IsKnown c b e
        → find_page k b.pages ≡ some p
        → Went k p
            (mentions_in c u k (named_slugs c u (e ∷ [])))
            b
            (update_entity c u acc e b)
            acc.pages_upserted
            (acc.timeline_appends ++ named_slugs c u (e ∷ []))
    unfolding update_entity
    update_entity-Went acc e b p known h = elim (Bool-cases (is_empty e.name)) [
      | inl n ↦
          rw (update_entity, n)
            (record {
              result = acc;
              after = b;
              returned = refl;
              gained = Gained-refl k p b h;
              there = λ slug x. x;
              no_upsert = refl;
              appended_to = sym (append-nil acc.timeline_appends);
            })
      | inr n ↦ elim (Option-cases (find_page (resolve_slug c e) b.pages)) [
        | inl f ↦ absurd (ground (arith, known n, f))
        | inr (q, f) ↦
            let slug = resolve_slug c e in
            rw (mention_returns acc e b q n f, n)
              (record {
                result = record acc { timeline_appends = acc.timeline_appends ++ (slug ∷ []) };
                after = appended u.now slug (mention_entry u) q b;
                returned = refl;
                gained = appended-Gained u.now slug (mention_entry u) b q f k p h;
                there =
                    AllThere-update slug (with_entry u.now slug (mention_entry u) b q f) b
                      (λ r. refl);
                no_upsert = refl;
                appended_to = refl;
              })
      ]
    ]

    named_slugs-cons :
        (e : Entity) (es : List Entity)
        → named_slugs c u (e ∷ es) ≡ named_slugs c u (e ∷ []) ++ named_slugs c u es
    named_slugs-cons e es = elim (Bool-cases (is_empty e.name)) [
      | inl n ↦ rw n refl
      | inr n ↦ rw n refl
    ]

    mentions_in-append :
        (xs ys : List Text)
        → mentions_in c u k (xs ++ ys) ≡ mentions_in c u k xs ++ mentions_in c u k ys
    mentions_in-append [] ys = refl
    mentions_in-append (x ∷ xs) ys = elim (Bool-cases (text_eq x k)) [
      | inl e ↦ rw e (ap (λ l. mention_entry u ∷ l) (mentions_in-append xs ys))
      | inr e ↦ rw e (mentions_in-append xs ys)
    ]

    IsKnown-later :
        (b b' : Brain) (es : List Entity)
        → AllThere b b'
        → All (IsKnown c b) es
        → All (IsKnown c b') es
    IsKnown-later b b' es there h =
        All-weaken (IsKnown c b) (IsKnown c b') es (λ e x n. there (resolve_slug c e) (x n)) h

    pub update_entities-Went :
        (acc : UpdateResult) (es : List Entity) (b : Brain) (p : BrainPage)
        → All (IsKnown c b) es
        → find_page k b.pages ≡ some p
        → Went k p
            (mentions_in c u k (named_slugs c u es))
            b
            (update_entities c u acc es b)
            acc.pages_upserted
            (acc.timeline_appends ++ named_slugs c u es)
    unfolding update_entities
    update_entities-Went acc [] b p known h = record {
      result = acc;
      after = b;
      returned = refl;
      gained = Gained-refl k p b h;
      there = λ slug x. x;
      no_upsert = refl;
      appended_to = sym (append-nil acc.timeline_appends);
    }
    update_entities-Went acc (e ∷ es) b p known h =
        let first = update_entity-Went acc e b p known.0 h in
        let later =
          update_entities-Went first.result es first.after first.gained.page
            (IsKnown-later b first.after es first.there known.1) first.gained.found in
        rw
          (
            named_slugs-cons e es,
            mentions_in-append (named_slugs c u (e ∷ [])) (named_slugs c u es),
          )
          (record {
            result = later.result;
            after = later.after;
            returned =
                >>=-ok (update_entity c u acc e) (λ a. update_entities c u a es) b first.after
                  first.result first.returned
                ∙ later.returned;
            gained =
                Gained-trans k p (mentions_in c u k (named_slugs c u (e ∷ [])))
                  (mentions_in c u k (named_slugs c u es)) b first.after later.after first.gained
                  later.gained;
            there = λ slug x. later.there slug (first.there slug x);
            no_upsert = later.no_upsert ∙ first.no_upsert;
            appended_to =
                later.appended_to
                ∙ (ap (λ t. t ++ named_slugs c u es) first.appended_to
                    ∙ append_assoc acc.timeline_appends (named_slugs c u (e ∷ []))
                        (named_slugs c u es));
          })
