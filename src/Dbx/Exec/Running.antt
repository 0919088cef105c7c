-- ===== src/Dbx/Exec/Running.antt =====
-- What `readRows` and `runStatements` of internal/dbx/exec.go return.
use debeasy.Base.{
  ℕ, zero, suc, ◌+◌, ◌≤◌, ◌≡◌, refl, sym, ap, ◌∙◌, ◌≢◌, Bool, true, false, Option, none, some, List,
  [], ◌∷◌, ◌++◌, map, append_assoc, append-nil, Result, ok, err, arith, length, Bool-cases, inl,
  inr, length-map,
}
use mathlib.Core.List.{cons-ne-nil}
use native.Mathlib.Nat.{add-zero}
use debeasy.Base.Text.{Text}
use debeasy.Base.Int.{ℤ, pos, negsuc}
use debeasy.Dbx.Driver.{Value, RowSet}
use debeasy.Dbx.Exec.{normalise_value, Rows, full, read_loop, read_rows}

-- A positive limit bounds the number of rows.
abbrev pub Within : ℤ → ℕ → Type 0
Within (pos zero) n = Unit
Within (pos (suc m)) n = n ≤ suc m
Within (negsuc m) n = Unit

abbrev rows_of : List (List Value) → List (List Value)
rows_of = map (map normalise_value)

-- Why the loop stopped: the limit is reached and a row is left, or every row was read.
abbrev pub Stopped : ℤ → ℕ → Option Text → List (Result Text (List Value)) → Bool → Type 0
Stopped max n end rest true = (full max n ≡ true) × (rest ≢ [])
Stopped max n end rest false = (rest ≡ []) × (end ≡ none)

abbrev Reads :
    ℤ
    → ℕ
    → Option Text
    → List (Result Text (List Value))
    → List (List Value)
    → List (List Value)
    → Bool
    → Type 0
Reads max count end scans acc rows t =
    (vs : List (List Value)) × (rest : List (Result Text (List Value))) × (scans
      ≡ map ok vs ++ rest)
    × (rows ≡ acc ++ rows_of vs)
    × (Within max count → Within max (count + length vs))
    × Stopped max (count + length vs) end rest t

not_full-Within : (max : ℤ) (count : ℕ) → full max count ≡ false → Within max (suc count)
not_full-Within (pos zero) count h = tt
not_full-Within (pos (suc n)) count h = ground arith
not_full-Within (negsuc n) count h = tt

-- The loop stops before it reads anything more.
stop_Reads :
    (scans : List (Result Text (List Value))) (end : Option Text) (max : ℤ) (count : ℕ)
    (acc : List (List Value)) (t : Bool)
    → Stopped max count end scans t
    → Reads max count end scans acc acc t
stop_Reads scans end max count acc t h =
    ([], scans, refl, sym (append-nil acc), λ w. rw add-zero w, rw add-zero h)

-- One more row is read.
row_Reads :
    (raw : List Value) (scans : List (Result Text (List Value))) (end : Option Text) (max : ℤ)
    (count : ℕ) (acc rows : List (List Value)) (t : Bool)
    → full max count ≡ false
    → Reads max (suc count) end scans (acc ++ map normalise_value raw ∷ []) rows t
    → Reads max count end (ok raw ∷ scans) acc rows t
row_Reads raw scans end max count acc rows t f (vs, rest, es, er, w, st) =
    let shift : count + suc (length vs) ≡ suc count + length vs = omega arith in
    (
      raw ∷ vs,
      rest,
      ap (λ l. ok raw ∷ l) es,
      er ∙ append_assoc acc (map normalise_value raw ∷ []) (rows_of vs),
      λ _. rw shift (w (not_full-Within max count f)),
      rw shift st,
    )

Within-zero : (max : ℤ) → Within max 0
Within-zero (pos zero) = tt
Within-zero (pos (suc n)) = omega arith
Within-zero (negsuc n) = tt

read_loop-Reads :
    (scans : List (Result Text (List Value))) (end : Option Text) (max : ℤ) (count : ℕ)
    (acc rows : List (List Value)) (t : Bool)
    → read_loop scans end max count acc ≡ ok (rows, t)
    → Reads max count end scans acc rows t
unfolding read_loop
read_loop-Reads [] none max count acc rows t h =
    let same : rows ≡ acc = cc in
    let all : t ≡ false = cc in rw (same, all) (stop_Reads [] none max count acc false (refl, refl))
read_loop-Reads [] (some e) max count acc rows t h = cc
read_loop-Reads (err e ∷ scans) end max count acc rows t h =
    let same : rows ≡ acc = ground arith in
    let cut : t ≡ true = ground arith in
    rw (same, cut)
      (stop_Reads (err e ∷ scans) end max count acc true (ground arith, cons-ne-nil _ _))
read_loop-Reads (ok raw ∷ scans) end max count acc rows t h = elim (Bool-cases (full max count)) [
  | inl f ↦
      let same : rows ≡ acc = ground arith in
      let cut : t ≡ true = ground arith in
      rw (same, cut) (stop_Reads (ok raw ∷ scans) end max count acc true (f, cons-ne-nil _ _))
  | inr f ↦ row_Reads raw scans end max count acc rows t f (
      read_loop-Reads scans end max (suc count) (acc ++ map normalise_value raw ∷ []) rows t
        (rw (f, read_loop) at h))
]

read_rows-loop :
    (r : Rows) (max : ℤ) (rs : RowSet) (t : Bool)
    → read_rows r max ≡ ok (rs, t)
    → read_loop r.scans r.end_error max 0 [] ≡ ok (rs.rows, t)
unfolding read_rows
read_rows-loop r max rs t h = ground arith

-- `readRows` on success: the rows returned are the first rows of the cursor, normalised and in order;
-- a positive limit bounds their number; and the flag is set exactly if the limit stopped the loop
-- with a row left, else every row was read and the cursor ended with no error.
pub read_rows_sound :
    (r : Rows) (max : ℤ) (rs : RowSet) (t : Bool)
    → read_rows r max ≡ ok (rs, t)
    → (vs : List (List Value)) × (rest : List (Result Text (List Value))) × (r.scans
        ≡ map ok vs ++ rest)
      × (rs.rows ≡ map (map normalise_value) vs)
      × Within max (length rs.rows)
      × Stopped max (length rs.rows) r.end_error rest t
read_rows_sound r max rs t h =
    let (vs, rest, es, rows, w, st) =
      read_loop-Reads r.scans r.end_error max 0 [] rs.rows t (read_rows-loop r max rs t h) in
    let size : length rs.rows ≡ 0 + length vs =
      omega (arith, ap length rows, length-map vs (map normalise_value)) in
    (vs, rest, es, rows, rw size (w (Within-zero max)), rw size st)
