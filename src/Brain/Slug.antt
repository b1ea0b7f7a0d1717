-- ===== src/Brain/Slug.antt =====
-- The slugs of app/miniagents/brain_updater.py.
use vof_backend.Prelude.{
  select, leb, ◌==◌, if◌then◌else◌, is_some, get_or_else, ℕ, Bool, not, ◌&&◌, ◌||◌, Option, none,
  some, List, [], ◌∷◌, ◌++◌, map,
}
use vof_backend.Text.{Text, codes, is_empty, text_eq, contains, strip, CaseMap}

-- `text.replace(" ", "-")`
abbrev dashed : ℕ → ℕ
dashed c = if c == 32 then 45 else c

-- What `[^a-z0-9-_]` leaves.
abbrev pub is_slug_char : ℕ → Bool
is_slug_char c = (leb 97 c && leb c 122) || ((leb 48 c && leb c 57) || (c == 45 || c == 95))

unfoldable pub lstrip_dash : Text → Text
lstrip_dash [] = []
lstrip_dash (c ∷ s) = let rest = lstrip_dash s in if c == 45 then rest else c ∷ s

unfoldable pub rstrip_dash : Text → Text
rstrip_dash [] = []
rstrip_dash (c ∷ s) = let rest = rstrip_dash s in if c == 45 && is_empty rest then [] else c ∷ rest

abbrev pub or_untitled : Text → Text
or_untitled [] = codes "untitled"
or_untitled (c ∷ s) = c ∷ s

unfoldable pub slugify : CaseMap → Text → Text
unfolding lstrip_dash rstrip_dash
slugify c text =
    or_untitled
      (rstrip_dash (lstrip_dash (select is_slug_char (map dashed (c.lower (strip text))))))

-- An extracted entity; a hint that is missing is empty.
pub record Entity : Type 0 where
  pub slug_hint : Text
  pub entity_type : Option Text
  pub name : Text

unfoldable pub slug_prefix : Text → Text
slug_prefix kind =
    if text_eq kind (codes "person")
    then codes "people"
    else if text_eq kind (codes "company") || text_eq kind (codes "account")
    then codes "accounts"
    else if text_eq kind (codes "product")
    then codes "products"
    else if text_eq kind (codes "theme")
    then codes "themes"
    else kind

unfoldable pub resolve_slug : CaseMap → Entity → Text
unfolding slugify slug_prefix
resolve_slug c ent =
    if is_empty ent.slug_hint
    then slug_prefix (get_or_else ent.entity_type (codes "misc"))
      ++ (codes "/" ++ slugify c ent.name)
    else c.lower (strip ent.slug_hint)

-- A verdict of the web verifier.
pub record Verdict : Type 0 where
  pub claim_subject : Text
  pub status : Text

abbrev pub is_verdict_status : Text → Bool
is_verdict_status s =
    text_eq s (codes "corroborated")
    || (text_eq s (codes "unconfirmed") || text_eq s (codes "contradicted"))

-- A dictionary, as the list of its entries.
unfoldable pub dict_get : Text → List (Text × Text) → Option Text
dict_get k [] = none
dict_get k ((x, v) ∷ d) = let rest = dict_get k d in if text_eq x k then some v else rest

unfoldable pub set_default : Text → Text → List (Text × Text) → List (Text × Text)
unfolding dict_get
set_default k v d = if is_some (dict_get k d) then d else d ++ ((k, v) ∷ [])

unfoldable pub index_verdict : CaseMap → Verdict → List (Text × Text) → List (Text × Text)
unfolding set_default slugify
index_verdict c v index =
    let subject = strip v.claim_subject in
    let status = c.lower (strip v.status) in
    if is_empty subject || not (is_verdict_status status)
    then index
    else set_default (slugify c subject) status (set_default (c.lower subject) status index)

unfoldable pub build_verdict_index :
    CaseMap → List Verdict → List (Text × Text) → List (Text × Text)
unfolding index_verdict
build_verdict_index c [] index = index
build_verdict_index c (v ∷ vs) index = build_verdict_index c vs (index_verdict c v index)

abbrev pub web_corroborated : Text
web_corroborated = codes "web_corroborated"

abbrev pub unverified_web : Text
unverified_web = codes "unverified_web"

abbrev pub contradicts_web_source : Text
contradicts_web_source = codes "contradicts_web_source"

unfoldable pub verdict_tag : (status : Text) (existing_tags : List Text) → Option Text
verdict_tag status tags =
    if text_eq status (codes "corroborated")
    then some web_corroborated
    else if text_eq status (codes "contradicted")
    then some contradicts_web_source
    else if text_eq status (codes "unconfirmed")
        && not (contains web_corroborated tags || contains contradicts_web_source tags)
    then some unverified_web
    else none
