-- ===== src/Server/Routes/Pages.antt =====
-- Where the redirections of internal/server/handlers_connections.go lead.
use debeasy.Base.{◌≡◌, refl, true, some, [], ◌∷◌}
use debeasy.Base.Text.{codes, ◌≗◌}
use debeasy.Base.Int.{ℤ}
use debeasy.Base.Decimal.{decimal_int}
use debeasy.Base.Number.{in_int64}
use debeasy.Base.Number.RoundTrip.{parse_int-decimal_int, decimal_int-filled}
use debeasy.Server.Request.{int_param}
use debeasy.Server.App.{Handler, Env}
use debeasy.Server.Middleware.{users_only}
use debeasy.Server.Handlers.Browse.{handle_connection_app}
use debeasy.Server.Routes.{Route, lit, param, match_path, find_route, routes, for_id}

abbrev pub app_route : {W : Type 0} → Env W → Route W
app_route env = record {
  method = some (codes "GET");
  pattern = lit (codes "conn") ∷ param ∷ [];
  access = users_only;
  handler = for_id (handle_connection_app env);
}

-- The path of a connection's page, with its id in int64, belongs to that page's route, and the page
-- reads the same id from it.
pub find_route-conn_url :
    {W : Type 0} (env : Env W) (static : Handler W) (id : ℤ)
    → in_int64 id ≡ true
    → (find_route (routes env static) (codes "GET") (codes "conn" ∷ decimal_int id ∷ [])
        ≡ some (app_route env, decimal_int id ∷ []))
      × (int_param (decimal_int id) ≡ id)
unfolding find_route routes match_path ◌≗◌
find_route-conn_url env static id h = (rw (decimal_int-filled id) refl, parse_int-decimal_int id h)
