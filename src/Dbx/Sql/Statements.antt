-- ===== src/Dbx/Sql/Statements.antt =====
-- What a reader of placeholders makes of a whole UPDATE or DELETE.
use debeasy.Base.{ℕ, ◌+◌, ◌≡◌, refl, sym, ap, ◌∙◌, List, [], ◌++◌, append_assoc, append-nil, length}
use debeasy.Base.Text.{Text, codes, join}
use debeasy.Dbx.Driver.{Kind}
use debeasy.Dbx.Identifier.Quoting.{quote_char}
use debeasy.Dbx.Sql.{Values}
use debeasy.Dbx.Sql.Placeholders.{Binding, plain, bindings_from, bindings}
use debeasy.Dbx.Sql.Terms.{
  numbered, last_name, comma_Passes, and_Passes, delete_Passes, update_Passes, set_Passes,
  key_Passes, after, AllRead, read_join, numbered-append,
}

-- The reader passes over the text of a table and then stands behind a name.
abbrev pub ReadsTable : Kind → Text → Type 0
ReadsTable k tbl =
    (name : Text) × ((last : Text) (next : ℕ) (rest : Text)
      → bindings_from (quote_char k) (plain last) next (tbl ++ rest)
        ≡ bindings_from (quote_char k) (plain name) next rest)

module _ (k : Kind) (step : ℕ → ℕ) (tbl : Text) (wheres : List Text) (pk : Values) where
  -- The key's terms, which end the statement.
  read_key :
      (i next : ℕ) (last : Text)
      → AllRead k step wheres pk i next
      → bindings_from
          (quote_char k)
          (plain last)
          next
          (codes " WHERE " ++ join wheres (codes " AND "))
        ≡ numbered pk i
  read_key i next last a =
      let end = read_join k step (codes " AND ") wheres pk i next last [] (and_Passes k) a tt in
      (key_Passes k last next (join wheres (codes " AND "))).1
      ∙ (ap (bindings_from (quote_char k) (plain last) next)
            (sym (append-nil (join wheres (codes " AND "))))
          ∙ (end
              ∙ (ap (λ (bs : List Binding). numbered pk i ++ bs) ended
                  ∙ append-nil (numbered pk i))))
    where
      ended :
          bindings_from (quote_char k) (plain (last_name last pk)) (after k step pk next) [] ≡ []
      ended = unfold bindings_from in refl

  pub read_delete :
      ReadsTable k tbl
      → AllRead k step wheres pk 1 1
      → bindings k (codes "DELETE FROM " ++ tbl ++ codes " WHERE " ++ join wheres (codes " AND "))
        ≡ numbered pk 1
  unfolding bindings
  read_delete (name, table) a =
      let tail = codes " WHERE " ++ join wheres (codes " AND ") in
      rw (append_assoc, append_assoc)
        ((delete_Passes k [] 1 (tbl ++ tail)).1 ∙ (table [] 1 tail ∙ read_key 1 1 name a))

  pub read_update :
      (sets : List Text) (values : Values)
      → ReadsTable k tbl
      → AllRead k step sets values 1 1
      → AllRead k step wheres pk (1 + length values) (after k step values 1)
      → bindings k (
          codes "UPDATE "
          ++ tbl
          ++ codes " SET "
          ++ join sets (codes ", ")
          ++ codes " WHERE "
          ++ join wheres (codes " AND "))
        ≡ numbered (values ++ pk) 1
  unfolding bindings
  read_update sets values (name, table) a b =
      let key = codes " WHERE " ++ join wheres (codes " AND ") in
      let tail = codes " SET " ++ (join sets (codes ", ") ++ key) in
      rw (append_assoc, append_assoc, append_assoc, append_assoc)
        ((update_Passes k [] 1 (tbl ++ tail)).1
          ∙ (table [] 1 tail
              ∙ ((set_Passes k name 1 (join sets (codes ", ") ++ key)).1
                  ∙ (read_join k step (codes ", ") sets values 1 1 name key (comma_Passes k) a
                        (key_Passes k [] 1 (join wheres (codes " AND "))).0
                      ∙ (ap (λ (bs : List Binding). numbered values 1 ++ bs)
                            (read_key (1 + length values) (after k step values 1)
                              (last_name name values) b)
                          ∙ sym (numbered-append values pk 1))))))
