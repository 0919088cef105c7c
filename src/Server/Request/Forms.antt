-- ===== src/Server/Request/Forms.antt =====
-- The lists of internal/server/handlers_create.go that come out of one text.
use debeasy.Base.{◌≡◌, refl, ap, ◌∙◌, false, not, List, [], ◌∷◌, ◌++◌, is_empty, All, map, select}
use debeasy.Base.Text.{Text, split, trim_space, join}
use debeasy.Base.Text.Split.{Without, split-join}
use debeasy.Base.Text.Trim.{IsBlank, IsTrimmed, trim_space-blank, trim_space-padded}
use debeasy.Server.Request.{split_csv}

-- What can stand between two commas: a name with space around it, or space alone.
pub data Field : Type 0 where
  named : (left name right : Text) → Field
  blank : (space : Text) → Field

abbrev pub text_of : Field → Text
text_of (named left name right) = left ++ (name ++ right)
text_of (blank space) = space

abbrev pub names_of : List Field → List Text
names_of [] = []
names_of (named left name right ∷ fields) = name ∷ names_of fields
names_of (blank space ∷ fields) = names_of fields

-- The name is not empty and has no space at its ends, and around it is only space.
abbrev pub IsField : Field → Type 0
IsField (named left name right) = IsBlank left × IsTrimmed name × IsBlank right
IsField (blank space) = IsBlank space

abbrev pub HasNoComma : Field → Type 0
HasNoComma f = Without b',' (text_of f)

IsTrimmed-filled : (name : Text) → IsTrimmed name → is_empty name ≡ false
IsTrimmed-filled name ((c, t, e, _), _) = rw e refl

kept :
    (fields : List Field)
    → All IsField fields
    → select (λ v. not (is_empty v)) (map trim_space (map text_of fields)) ≡ names_of fields
kept [] h = refl
kept (named left name right ∷ fields) ((l, n, r), hs) =
    rw (trim_space-padded left name right l n r, IsTrimmed-filled name n, kept fields hs) refl
kept (blank space ∷ fields) (h, hs) = rw (trim_space-blank space h) (kept fields hs)

comma_free : (fields : List Field) → All HasNoComma fields → All (Without b',') (map text_of fields)
comma_free [] h = tt
comma_free (f ∷ fields) (h, hs) = (h, comma_free fields hs)

-- Of fields that are joined by commas, none with a comma in it, `splitCSV` gives just the names, in their
-- order: without the space around them, and nothing for a field that is blank or empty.
pub split_csv-join :
    (fields : List Field)
    → All IsField fields
    → All HasNoComma fields
    → split_csv (join (map text_of fields) (b',' ∷ [])) ≡ names_of fields
unfolding split_csv split join trim_space
split_csv-join [] h k = refl
split_csv-join (f ∷ fields) h (k, ks) =
    ap (λ parts. select (λ v. not (is_empty v)) (map trim_space parts))
      (split-join b',' (text_of f) (map text_of fields) k (comma_free fields ks))
    ∙ kept (f ∷ fields) h
