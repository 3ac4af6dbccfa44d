-- ===== src/Auth/Accounts.antt =====
-- auth.service.ts: `changePassword`, `changeUsername` and `checkUsernameAvailability`.
use pookie_chat.Prelude.{◌==◌, if◌then◌else◌, is_none, find, any, ℕ, Bool, not, ◌&&◌, Option, some}
use pookie_chat.Domain.Text.{Text}
use pookie_chat.Domain.MessageState.{eq_text}
use pookie_chat.Domain.Username.{normalize_username, next_username_change_allowed_at, is_after}
use pookie_chat.Server.{
  M, ◌>>=◌, ◌>>◌, pure, throw, get, modify, require, or_throw, catch_violation, unauthorized,
  forbidden, conflict, unique_violation, ok, err,
}
use pookie_chat.Server.Rows.{UserRow}
use pookie_chat.Auth.{has_user_id, AuthState, AuthContext}
use pookie_chat.Auth.Login.{update_user}

-- `hashPassword` of the new password is the argument.
unfoldable pub change_password : AuthContext → ℕ → Text → Text → M AuthState (Unit {0})
change_password c user_id current new_hash = do
  st ← get
  u ←
      or_throw (find (has_user_id user_id) st.db.users)
        (unauthorized "Current password is incorrect")
  require (c.base.verify_password current u.password_hash)
      (unauthorized "Current password is incorrect")
  modify (update_user user_id (λ r. record r { password_hash = new_hash }))

abbrev pub has_username : Text → UserRow → Bool
has_username name u = eq_text u.username name

unfoldable check_username_availability : AuthContext → Text → AuthState → Bool
check_username_availability c raw st =
    is_none (find (has_username (normalize_username c.lower_other raw)) st.db.users)

abbrev pub renamed : Text → ℕ → UserRow → UserRow
renamed name now u = record u { username = name; username_changed_at = some now }

-- `user.update` under the unique constraint on the name.
abbrev pub write_username : ℕ → Text → ℕ → M AuthState (Unit {0})
write_username now name user_id st =
    if any (λ u. has_username name u && not (u.id == user_id)) st.db.users
    then (err unique_violation, st)
    else (ok tt, update_user user_id (renamed name now) st)

-- The new name, and when it may be changed again.
unfoldable pub change_username : AuthContext → ℕ → Text → M AuthState (Text × Option ℕ)
change_username c user_id raw = do
  let name : Text = normalize_username c.lower_other raw
  st ← get
  u ← or_throw (find (has_user_id user_id) st.db.users) (unauthorized "Unauthorized")
  require (not (eq_text name u.username)) (conflict "That is already your username.")
  require (not (is_after c.base.now (next_username_change_allowed_at u.username_changed_at)))
      (forbidden "You can change your username again later.")
  catch_violation (write_username c.base.now name user_id)
      (λ _. throw (conflict "That username is already taken"))
  pure (name, next_username_change_allowed_at (some c.base.now))
