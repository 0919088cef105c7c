-- ===== src/Dbx/Exec/Splitting.antt =====
-- `splitSQL` of internal/dbx/exec.go against the lexical rule that it implements.
use debeasy.Base.{
  ℕ, ◌≡◌, refl, sym, ap, subst, ◌∙◌, ◌≢◌, Bool, true, false, not, ◌&&◌, List, [], ◌∷◌, ◌++◌,
  append_assoc, append-nil, arith, ◌==◌, if◌then◌else◌, if_cases, All, All-append,
}
use debeasy.Base.Text.{Text}
use debeasy.Dbx.Exec.{Scan, scan_byte, scan_all, is_blank, split_sql}

-- Where a position of the text stands.
pub data Quotes : Type 0 where
  outside single double : Quotes

-- A quote opens outside of quotes and closes its own kind; inside the other kind it is text.
abbrev pub advance : Quotes → ℕ → Quotes
advance outside c = if c == b'\'' then single else if c == b'"' then double else outside
advance single c = if c == b'\'' then outside else single
advance double c = if c == b'"' then outside else double

abbrev pub after : Quotes → Text → Quotes
after q [] = q
after q (c ∷ s) = after (advance q c) s

-- No semicolon stands outside of quotes.
abbrev pub NoBareSemicolon : Quotes → Text → Type 0
NoBareSemicolon q [] = Unit
NoBareSemicolon q (c ∷ s) = (q ≡ outside → c ≢ b';') × NoBareSemicolon (advance q c) s

-- A complete statement: no bare semicolon, and every quote is closed.
abbrev pub IsStatement : Text → Type 0
IsStatement s = NoBareSemicolon outside s × (after outside s ≡ outside)

-- Each text with a semicolon behind it.
abbrev pub terminated : List Text → Text
terminated [] = []
terminated (p ∷ ps) = p ++ b';' ∷ terminated ps

after-append : (q : Quotes) (s : Text) (c : ℕ) → after q (s ++ c ∷ []) ≡ advance (after q s) c
after-append q [] c = refl
after-append q (d ∷ s) c = after-append (advance q d) s c

NoBare-append :
    (q : Quotes) (s : Text) (c : ℕ)
    → NoBareSemicolon q s
    → (after q s ≡ outside → c ≢ b';')
    → NoBareSemicolon q (s ++ c ∷ [])
NoBare-append q [] c h k = (k, tt)
NoBare-append q (d ∷ s) c (h, hs) k = (h, NoBare-append (advance q d) s c hs k)

terminated-append :
    (ps : List Text) (p : Text) → terminated (ps ++ p ∷ []) ≡ terminated ps ++ (p ++ b';' ∷ [])
terminated-append [] p = refl
terminated-append (q ∷ ps) p = simp (terminated-append ps p, append_assoc)

abbrev quotes : Bool → Bool → Quotes
quotes true in_d = single
quotes false true = double
quotes false false = outside

-- What the loop has established when it has read `s`.
record Inv (s : Text) (st : Scan) : Type 0 where
  exclusive : (st.in_s && st.in_d) ≡ false
  complete : All IsStatement st.out
  open_part : NoBareSemicolon outside st.cur
  position : after outside st.cur ≡ quotes st.in_s st.in_d
  spelled : s ≡ terminated st.out ++ st.cur

push-Inv :
    (s : Text) (st : Scan) (c : ℕ) (a b : Bool)
    → Inv s st
    → (a && b) ≡ false
    → advance (quotes st.in_s st.in_d) c ≡ quotes a b
    → (quotes st.in_s st.in_d ≡ outside → c ≢ b';')
    → Inv (s ++ c ∷ []) (record st { in_s = a; in_d = b; cur = st.cur ++ c ∷ [] })
push-Inv s st c a b v x h k = record {
  exclusive = x;
  complete = v.complete;
  open_part = NoBare-append outside st.cur c v.open_part (λ e. k (sym v.position ∙ e));
  position = after-append outside st.cur c ∙ ap (λ q. advance q c) v.position ∙ h;
  spelled = rw (v.spelled, append_assoc) refl;
}

cut-Inv :
    (s : Text) (st : Scan)
    → Inv s st
    → quotes st.in_s st.in_d ≡ outside
    → Inv (s ++ b';' ∷ []) (record st { out = st.out ++ st.cur ∷ []; cur = [] })
cut-Inv s st v h = record {
  exclusive = v.exclusive;
  complete =
      All-append IsStatement st.out (st.cur ∷ []) v.complete ((v.open_part, v.position ∙ h), tt);
  open_part = tt;
  position = sym h;
  spelled = rw (v.spelled, terminated-append, append-nil, append_assoc) refl;
}

scan_byte-Inv : (s : Text) (st : Scan) (c : ℕ) → Inv s st → Inv (s ++ c ∷ []) (scan_byte st c)
unfolding scan_byte
scan_byte-Inv s st c v =
    if_cases (Inv (s ++ c ∷ [])) (c == b'\'' && not st.in_d)
      (λ e. push-Inv s st c (not st.in_s) st.in_d v (ground arith) (ground arith) (ground arith))
      λ e.
        if_cases (Inv (s ++ c ∷ [])) (c == b'"' && not st.in_s)
          (λ f.
            push-Inv s st c st.in_s (not st.in_d) v (ground arith) (ground arith) (ground arith))
          λ f.
            if_cases (Inv (s ++ c ∷ [])) (c == b';' && (not st.in_s && not st.in_d))
              (λ g. rw (semicolon _ g) (cut-Inv s st v (ground arith)))
              λ g. push-Inv s st c st.in_s st.in_d v v.exclusive (ground arith) (ground arith)
  where
    semicolon : (b : Bool) → (c == b';' && b) ≡ true → c ≡ b';'
    semicolon b g = ground arith

scan_all-Inv : (s t : Text) (st : Scan) → Inv s st → Inv (s ++ t) (scan_all st t)
unfolding scan_all
scan_all-Inv s [] st v = rw append-nil v
scan_all-Inv s (c ∷ t) st v =
    subst (λ x. Inv x (scan_all (scan_byte st c) t)) (append_assoc s (c ∷ []) t)
      (scan_all-Inv (s ++ c ∷ []) t (scan_byte st c) (scan_byte-Inv s st c v))

-- `splitSQL` cuts the text at its bare semicolons and nowhere else: the text is the returned
-- statements, each with a semicolon behind it, and a last part; the statements are complete (quotes
-- closed, no semicolon outside of quotes), the last part holds no bare semicolon, and it is returned
-- too unless it is blank.
pub split_sql_lem :
    (s : Text)
    → (body : List Text) × (last : Text) × All IsStatement body
      × NoBareSemicolon outside last
      × (s ≡ terminated body ++ last)
      × (split_sql s ≡ body ++ (if is_blank last then [] else last ∷ []))
unfolding split_sql
split_sql_lem s =
    let st = scan_all (record { in_s = false; in_d = false; cur = []; out = [] }) s in
    let v =
      scan_all-Inv [] s (record { in_s = false; in_d = false; cur = []; out = [] })
        (record {
          exclusive = refl;
          complete = tt;
          open_part = tt;
          position = refl;
          spelled = refl;
        }) in
    (st.out, st.cur, v.complete, v.open_part, v.spelled, refl)
