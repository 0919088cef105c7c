-- ===== src/Server/Handlers/Query/Recorded.antt =====
-- What a query leaves in the history: internal/server/handlers_query.go.
use debeasy.Base.{ℕ, suc, ◌≡◌, true, none, List, [], ◌∷◌, Result, ok, err, map, any}
use debeasy.Base.Text.{Text}
use debeasy.Store.{Store, HistoryRow, Error}
use debeasy.Store.Users as Accounts
use debeasy.Store.Connections as Saved
use debeasy.Store.Connections.{Connection}
use debeasy.Store.History.{HistoryEntry, row_of}
use debeasy.Dbx.Driver.{StatementResult}
use debeasy.Dbx.Driver as Driver
use debeasy.Server.App.{App}
use debeasy.Server.Handlers.Query.{failed_entry, result_entry}

-- The rows of entries from an id on.
abbrev pub numbered : ℕ → Text → List HistoryEntry → List HistoryRow
numbered id now [] = []
numbered id now (e ∷ es) = row_of id e now ∷ numbered (suc id) now es

-- The store takes entries of the user for the connection.
pub record Takes (s : Store) (user : ℕ) (conn : Connection) : Type 0 where
  pub up : s.down ≡ none
  pub user_known : any (Accounts.with_id user) s.users ≡ true
  pub conn_known : any (Saved.with_id conn.id) s.connections ≡ true

abbrev pub with_history : Store → List HistoryRow → ℕ → Store
with_history s rows next = record s { history = rows; next_history = next }

-- The entries for what the driver returned: one for each statement that was run, or one for the error.
abbrev pub entries :
    ℕ → Connection → Text → Result Driver.Error (List StatementResult) → List HistoryEntry
entries user conn sql (err e) = failed_entry user conn sql e ∷ []
entries user conn sql (ok results) = map (result_entry user conn) results
