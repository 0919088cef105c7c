-- ===== src/Store/History/Tests.antt =====
-- The theorems on the query history, at concrete inputs.
use debeasy.Base.{false, [], ◌∷◌, none}
use debeasy.Base.Text.{codes}
use debeasy.Base.Int.{pos}
use debeasy.Store.{Store, UserRow, empty}
use debeasy.Store.History.{HistoryEntry, row_of}

abbrev ann_row : UserRow
ann_row = record {
  id = 1;
  username = codes "ann";
  password_hash = [];
  role = codes "user";
  disabled = false;
  created_at = [];
}

abbrev entry : HistoryEntry
entry = record {
  user_id = 1;
  connection_id = none;
  sql = codes "SELECT 1";
  elapsed_ms = 3;
  rows_affected = pos 1;
  error = none;
}

abbrev before : Store
before = record empty { users = ann_row ∷ [] }

abbrev after : Store
after = record before { history = row_of 1 entry (codes "now") ∷ []; next_history = 2 }
