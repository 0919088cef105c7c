-- ===== src/Store/History/Laws.antt =====
-- What the query history promises: internal/store/history.go.
use mathlib.Core.List.{reverse}
use debeasy.Base.{
  All-reverse_aux, ℕ, zero, suc, ◌≤◌, ◌≡◌, Bool, List, [], ◌∷◌, ok, arith, ◌==◌, select, take,
  length, length-take, All, Bool-cases, inl, inr,
}
use debeasy.Base.Text.{Text}
use debeasy.Base.Int.{ℤ, pos, negsuc}
use debeasy.Store.{Store, HistoryRow}
use debeasy.Store.History.{page_limit, recent}

-- The rows of one user.
abbrev pub own : ℕ → HistoryRow → Bool
own user_id h = h.user_id == user_id

abbrev pub Own : ℕ → HistoryRow → Type 0
Own user_id h = h.user_id ≡ user_id

select-Own : (u : ℕ) (hs : List HistoryRow) → All (Own u) (select (own u) hs)
select-Own u [] = tt
select-Own u (h ∷ hs) = elim (Bool-cases (own u h)) [
  | inl e ↦ rw e ((ground arith, select-Own u hs))
  | inr e ↦ rw e (select-Own u hs)
]

All-take : (u n : ℕ) (hs : List HistoryRow) → All (Own u) hs → All (Own u) (take n hs)
All-take u zero hs a = tt
All-take u (suc n) [] a = tt
All-take u (suc n) (h ∷ hs) (a, as') = (a, All-take u n hs as')

page_limit_bounded : (limit : ℤ) → page_limit limit ≤ 200
page_limit_bounded (pos n) = ground arith
page_limit_bounded (negsuc n) = ground arith

-- The page that `Recent` asks for, newest first.
abbrev pub page : Store → ℕ → ℤ → List HistoryRow
page s u limit = take (page_limit limit) (reverse (select (own u) s.history))

recent_ok :
    (s : Store) (u : ℕ) (limit : ℤ) (rows : List HistoryRow)
    → recent s u limit ≡ ok rows
    → page s u limit ≡ rows
unfolding recent
recent_ok s u limit rows h = ground arith

-- Whatever limit is asked for, `Recent` returns at most 200 entries, and only those of the user who
-- asks.
pub recent_bounded :
    (s : Store) (u : ℕ) (limit : ℤ) (rows : List HistoryRow)
    → recent s u limit ≡ ok rows
    → (length rows ≤ 200) × All (Own u) rows
recent_bounded s u limit rows h =
    let own_rows = select (own u) s.history in
    let size = length-take (page_limit limit) (reverse own_rows) in
    rw (← recent_ok s u limit rows h) (
      omega (arith, size, page_limit_bounded limit),
      All-take u (page_limit limit) (reverse own_rows)
          (All-reverse_aux (Own u) own_rows [] (select-Own u s.history) tt),
    )
