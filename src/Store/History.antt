-- ===== src/Store/History.antt =====
-- internal/store/history.go: the queries that each user has run.
pub mod Laws
mod Tests
use debeasy.Base.{
  ℕ, zero, suc, ◌+◌, Bool, true, false, ◌||◌, ◌&&◌, Option, none, some, List, [], ◌∷◌, ◌++◌, Result,
  ok, err, if◌then◌else◌, ltb, leb, ◌==◌, any, select, take,
}
use mathlib.Core.List.{reverse}
use debeasy.Base.Text.{Text, codes}
use debeasy.Base.Int.{ℤ, pos, negsuc}
use debeasy.Store.{Store, HistoryRow, Error, database, if_up, query}
use debeasy.Store.Users
use debeasy.Store.Connections

-- What a caller of `Append` fills in.
pub record HistoryEntry : Type 0 where
  pub user_id : ℕ
  pub connection_id : Option ℕ
  pub sql : Text
  pub elapsed_ms : ℕ
  pub rows_affected : ℤ
  pub error : Option Text

abbrev pub row_of : ℕ → HistoryEntry → Text → HistoryRow
row_of id e now = record {
  id = id;
  user_id = e.user_id;
  connection_id = e.connection_id;
  sql = e.sql;
  elapsed_ms = e.elapsed_ms;
  rows_affected = e.rows_affected;
  error = e.error;
  created_at = now;
}

-- The connection is NULL or an existing one.
unfoldable pub references_connection : Store → Option ℕ → Bool
references_connection s none = true
references_connection s (some id) = any (Connections.with_id id) s.connections

unfoldable pub append : Store → HistoryEntry → Text → Result Error (Unit {0}) × Store
unfolding references_connection
append s e now =
    if_up s.down (λ msg. (err (database msg), s))
      (if any (Users.with_id e.user_id) s.users && references_connection s e.connection_id
        then (
          ok tt,
          record s {
            history = s.history ++ row_of s.next_history e now ∷ [];
            next_history = suc s.next_history;
          },
        )
        else (err (database (codes "FOREIGN KEY constraint failed")), s))

-- `if limit <= 0 || limit > 200 { limit = 50 }`
abbrev pub page_limit : ℤ → ℕ
page_limit (pos n) = if n == 0 || ltb 200 n then 50 else n
page_limit (negsuc n) = 50

-- `ORDER BY id DESC LIMIT ?`: the rows stand in the order of their ids.
unfoldable pub recent : Store → ℕ → ℤ → Result Error (List HistoryRow)
recent s user_id limit =
    query s (take (page_limit limit) (reverse (select (λ h. h.user_id == user_id) s.history)))
