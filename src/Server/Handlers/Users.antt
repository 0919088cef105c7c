-- ===== src/Server/Handlers/Users.antt =====
-- internal/server/handlers_users.go: the administrators' page of users.
use debeasy.Base.{ℕ, Bool, List, Result, ok, err, if◌then◌else◌, is_empty}
use debeasy.Base.Text.{Text, codes}
use debeasy.Store
use debeasy.Store.{Store}
use debeasy.Store.Users as Accounts
use debeasy.Store.Users.{User}
use debeasy.Server.Request.{form_value, int_param}
use debeasy.Server.Pages.{of_store, users, users_page, Response, page, failure, see_other}
use debeasy.Server.App.{App, Context, Handler, Env, layout, row_id}

module _ {W : Type 0} (env : Env W) where
  abbrev users_list : Context → App W → Result Store.Error (List User) → Response
  users_list c a (err e) = failure 500 (of_store e)
  users_list c a (ok us) = page 200 (users_page (layout env c a (codes "Users") users) us)

  unfoldable pub handle_users_list : Handler W
  handle_users_list c r a = (users_list c a (Accounts.list a.store), a)

  -- The answer to a change: a status for its error, or the list again.
  abbrev pub changed {ℓ} :
      {A : Type ℓ} → ℕ → App W → Result Store.Error A × Store → Response × App W
  changed status a (err e, s) = (failure status (of_store e), record a { store = s })
  changed status a (ok x, s) = (see_other (codes "/users"), record a { store = s })

  abbrev or_user : Text → Text
  or_user role = if is_empty role then codes "user" else role

  unfoldable pub handle_user_create : Handler W
  handle_user_create c r a = changed 400 a (
      Accounts.create env.bcrypt a.store (form_value r (codes "username"))
        (form_value r (codes "password")) (or_user (form_value r (codes "role"))) env.salt
        env.now_text)

  unfoldable pub handle_user_set_disabled : Bool → Text → Handler W
  handle_user_set_disabled disabled id c r a =
      changed 500 a (Accounts.set_disabled env.bcrypt a.store (row_id (int_param id)) disabled)

  unfoldable pub handle_user_reset : Text → Handler W
  handle_user_reset id c r a = changed 400 a (
      Accounts.reset_password env.bcrypt a.store (row_id (int_param id))
        (form_value r (codes "password")) env.salt)
