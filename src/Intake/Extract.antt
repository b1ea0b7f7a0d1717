-- ===== src/Intake/Extract.antt =====
-- The registry of app/services/intake_extractors with its six extractors, and `_extract_content` of
-- app/services/intake_processing.py. What an extractor reads in a file is an argument: it calls a
-- library of the format.
use vof_backend.Brain.Correction.{TextRepr}
use vof_backend.Decision.Repo.{key}
use vof_backend.Intake.Models.{IntakeBufferItem}
use vof_backend.Prelude.{
  length, take, find_first, ◌==◌, if◌then◌else◌, is_some, or_else, ℕ, Bool, false, not, ◌&&◌,
  Option, none, some, List, [], ◌∷◌, ◌++◌, map,
}
use vof_backend.Text.{Text, codes, is_empty, text_eq, contains, strip, find_char, join, CaseMap}
use vof_backend.Text.Hex.{uuid_text, decimal_text}

-- A call that returns, raises `UnsupportedFormat`, or raises something else with its message.
pub data Attempt {ℓ} (A : Type ℓ) : Type ℓ where
  returned : A → Attempt A
  unsupported : (message : Text) → Attempt A
  raised : (message : Text) → Attempt A

pub record Extractor : Type 0 where
  pub name : Text
  pub accepts_mime : List Text
  pub accepts_ext : List Text

-- The rows hold their keys and values as `str` gives them, and are none where there is no table.
pub record ExtractedContent : Type 0 where
  pub text : Option Text
  pub rows : List (List (Text × Text))
  pub warnings : List Text

abbrev pub extractors : List Extractor
extractors =
    record {
      name = codes "pdf";
      accepts_mime = codes "application/pdf" ∷ [];
      accepts_ext = codes ".pdf" ∷ [];
    }
    ∷ record {
      name = codes "docx";
      accepts_mime =
          codes "application/vnd.openxmlformats-officedocument.wordprocessingml.document" ∷ [];
      accepts_ext = codes ".docx" ∷ [];
    }
    ∷ record {
      name = codes "text";
      accepts_mime = codes "text/plain" ∷ codes "text/markdown" ∷ [];
      accepts_ext = codes ".txt" ∷ codes ".md" ∷ codes ".markdown" ∷ [];
    }
    ∷ record {
      name = codes "csv";
      accepts_mime = codes "text/csv" ∷ codes "application/csv" ∷ [];
      accepts_ext = codes ".csv" ∷ [];
    }
    ∷ record {
      name = codes "xlsx";
      accepts_mime =
          codes "application/vnd.openxmlformats-officedocument.spreadsheetml.sheet"
          ∷ codes "application/vnd.ms-excel"
          ∷ [];
      accepts_ext = codes ".xlsx" ∷ codes ".xlsm" ∷ [];
    }
    ∷ record {
      name = codes "json";
      accepts_mime = codes "application/json" ∷ [];
      accepts_ext = codes ".json" ∷ [];
    }
    ∷ []

-- `s.rsplit(c, 1)[-1]`: what follows the last separator, or all of the text.
unfoldable pub after_last : (separator : ℕ) → Text → Text
after_last x [] = []
after_last x (c ∷ s) =
    let rest = after_last x s in
    if is_some (find_char x s) then rest else if c == x then s else c ∷ s

unfoldable pub file_extension : CaseMap → Text → Text
unfolding after_last
file_extension c filename =
    if is_some (find_char b'.' filename)
    then codes "." ++ c.lower (after_last b'.' filename)
    else []

abbrev takes_mime : CaseMap → Option Text → Extractor → Bool
takes_mime c none e = false
takes_mime c (some mime) e =
    not (is_empty mime) && contains (c.lower mime) (map c.lower e.accepts_mime)

-- `resolve`, over the extractors that are registered
unfoldable pub resolve_in : CaseMap → List Extractor → Option Text → Text → Option Extractor
unfolding file_extension contains
resolve_in c registered mime filename =
    or_else (find_first (takes_mime c mime) registered)
      (find_first (λ e. contains (file_extension c filename) e.accepts_ext) registered)

abbrev pub resolve : CaseMap → Option Text → Text → Option Extractor
resolve c = resolve_in c extractors

abbrev pair_text : Text × Text → Text
pair_text (k, v) = k ++ (codes "=" ++ v)

abbrev row_text : List (Text × Text) → Text
row_text r = join (codes " | ") (map pair_text r)

abbrev row_lines : List (List (Text × Text)) → List Text
row_lines [] = []
row_lines (r ∷ rs) =
    (codes "[rows count=" ++ (decimal_text (length (r ∷ rs)) ++ codes " sample_first=25]"))
    ∷ map row_text (take 25 (r ∷ rs))

abbrev text_lines : Option Text → List Text
text_lines none = []
text_lines (some t) = if is_empty t then [] else t ∷ []

-- The text that is classified, for what an extractor gives.
unfoldable pub content_of : ExtractedContent → Text
unfolding join
content_of e =
    let t = strip (join (10 ∷ []) (text_lines e.text ++ row_lines e.rows)) in
    elim e.warnings [
      | [] ↦ t
      | w ∷ ws ↦
          if is_empty t
          then codes "(no text extracted; warnings: " ++ (join (codes "; ") (w ∷ ws) ++ codes ")")
          else t
    ]

-- The object store: the data of each key that is there.
abbrev pub Blobs : Type 0
Blobs = Text → Option Text

abbrev pub put_blob : Text → Text → Blobs → Blobs
put_blob key bytes blobs k = if text_eq key k then some bytes else blobs k

abbrev pub delete_blob : Text → Blobs → Blobs
delete_blob key blobs k = if text_eq key k then none else blobs k

abbrev pub text_of : Option Text → Text
text_of none = []
text_of (some t) = t

module _ (c : CaseMap) ⦃R : TextRepr⦄ where
  -- The message of `UnsupportedFormat`
  unfoldable pub unsupported_message : Option Text → Text → Text
  unfolding file_extension
  unsupported_message mime filename =
      codes "no extractor for mime="
      ++ (elim mime [ none ↦ codes "None" | some m ↦ R.repr m ]
          ++ (codes " ext=" ++ R.repr (file_extension c filename)))

  module _ (extract : (name blob filename : Text) → Attempt ExtractedContent)
      (missing_blob : Text → Text) where
    -- The extractor of a blob runs.
    unfoldable pub extract_blob :
        Option Text → (filename blob : Text) → Attempt (Text × Option Text)
    unfolding resolve_in unsupported_message content_of
    extract_blob mime filename blob = elim (resolve c mime filename) [
      | none ↦ unsupported (unsupported_message mime filename)
      | some e ↦ elim (extract e.name blob filename) [
        | returned content ↦ returned (content_of content, some e.name)
        | unsupported m ↦ unsupported m
        | raised m ↦ raised m
      ]
    ]

    unfoldable pub extract_content : IntakeBufferItem → Blobs → Attempt (Text × Option Text)
    unfolding extract_blob
    extract_content i blobs =
        if not (is_empty (text_of i.content_text))
        then returned (text_of i.content_text, none)
        else if is_empty (text_of i.content_blob_key)
        then raised (codes "item " ++ (uuid_text i.id ++ codes " has neither text nor blob"))
        else elim (blobs (text_of i.content_blob_key)) [
          | none ↦ raised (missing_blob (text_of i.content_blob_key))
          | some blob ↦
              extract_blob i.content_mime
                (if is_empty (text_of i.content_filename)
                  then codes "unknown"
                  else text_of i.content_filename)
                blob
        ]
