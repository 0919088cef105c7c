-- ===== src/Store/Connections/Tests.antt =====
-- The theorems on saved connections, at concrete inputs.
use debeasy.Base.{ℕ, ◌≡◌, ◌≢◌, refl, true, false, [], ◌∷◌, none, some, ok}
use debeasy.Base.Text.{Text, codes, ◌≗◌, trim_space, trim_left, trim_right, is_space}
use debeasy.Base.Int.{pos}
use debeasy.Crypto.{keyring_seal, keyring_open}
use debeasy.Crypto.Tests.{plain_cipher}
use debeasy.Store.{Store, UserRow, ConnectionRow, empty}
use debeasy.Store.Connections.{
  Connection, valid_kind, scan, get, seal_password, open_password, update, run_update, update_with,
}
use debeasy.Store.Connections.Updates.{updated, get-update}

abbrev ann_row : UserRow
ann_row = record {
  id = 1;
  username = codes "ann";
  password_hash = [];
  role = codes "user";
  disabled = false;
  created_at = [];
}

abbrev with_ann : Store
with_ann = record empty { users = ann_row ∷ [] }

abbrev shop : Connection
shop = record {
  id = 1;
  name = codes " shop ";
  kind = codes "mysql";
  host = codes "db";
  port = pos 3306;
  username = codes "u";
  password = codes "pw";
  database = codes "d";
  sslmode = [];
  params = [];
  created_by = none;
}

abbrev shop_row : Text → ConnectionRow
shop_row sealed = record {
  id = 1;
  name = codes "shop";
  kind = codes "mysql";
  host = codes "db";
  port = pos 3306;
  username = codes "u";
  password_enc = some sealed;
  database = codes "d";
  sslmode = [];
  params = [];
  created_by = some 1;
}

abbrev with_shop : Text → Store
with_shop sealed = record with_ann { connections = shop_row sealed ∷ []; next_connection = 2 }

abbrev saved_shop : Connection
saved_shop = record shop { name = codes "shop"; created_by = some 1 }

abbrev renamed : Connection
renamed = record shop { password = codes "new" }

get-update_example :
    (get (with_shop (codes "?new")) (some plain_cipher) 1 ≡ ok (updated renamed saved_shop true))
    × ((other : ℕ)
        → other ≢ 1
        → get (with_shop (codes "?new")) (some plain_cipher) other
          ≡ get (with_shop (codes "!pw")) (some plain_cipher) other)
unfolding update update_with run_update seal_password open_password scan get keyring_seal
    keyring_open valid_kind trim_space trim_left trim_right is_space ◌≗◌ empty
get-update_example =
    get-update (with_shop (codes "!pw")) (with_shop (codes "?new")) plain_cipher renamed saved_shop
      true (ok (codes "?")) refl refl refl

abbrev blank : Connection
blank = record shop { name = codes "  " }
