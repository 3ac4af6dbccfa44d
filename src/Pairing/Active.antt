-- ===== src/Pairing/Active.antt =====
-- `getActiveForeverCode`, `revokeActiveForeverCode` and `revoke` of pairing.service.ts.
pub mod Retiring
pub mod Revoking
pub mod Showing
use pookie_chat.Prelude.{
  ltb, ◌==◌, if◌then◌else◌, is_none, find, keep, ℕ, Bool, ◌&&◌, Option, none, some, List, [], ◌∷◌,
  ◌++◌,
}
use pookie_chat.Domain.Text.{Text}
use pookie_chat.Server.{
  M, ◌>>=◌, ◌>>◌, pure, throw, get, modify, require, not_found, Result, ok, err,
}
use pookie_chat.Server.Rows.{PairingStatus, PairingRow, SecurityEvent, pairing_revoked}
use pookie_chat.Server.Database.{Database, Context}
use pookie_chat.Pairing.Tables.{
  same_status, is_forever_of, has_pairing_id, update_codes, update_code, readable_code, drawn_code,
  with_code, Draw,
}
use pookie_chat.Pairing.Create.{check_code_availability}

pub record Shown : Type 0 where
  pub code : Option Text
  pub created_at : Option ℕ
  pub previous_code : Option Text
  pub is_previous_available : Option Bool

abbrev pub shown_code : Text → ℕ → Shown
shown_code code created_at = record {
  code = some code;
  created_at = some created_at;
  previous_code = none;
  is_previous_available = none;
}

abbrev pub nothing_shown : Shown
nothing_shown = record {
  code = none;
  created_at = none;
  previous_code = none;
  is_previous_available = none;
}

abbrev pub is_retired_of : ℕ → PairingRow → Bool
is_retired_of user r =
    r.creator_user_id == user && is_none r.expires_at && same_status r.status PairingStatus.revoked

-- `findFirst` with `orderBy: { createdAt: 'desc' }`
pub latest_retired : ℕ → List PairingRow → Option PairingRow
latest_retired user [] = none
latest_retired user (r ∷ rs) =
    let rest = latest_retired user rs in if is_retired_of user r then later r rest else rest
  where
    later : PairingRow → Option PairingRow → Option PairingRow
    later r none = some r
    later r (some s) = if ltb r.created_at s.created_at then some s else some r

abbrev pub text_of : Option PairingRow → Option Text
text_of none = none
text_of (some r) = r.code_text

module _ (c : Context) (user : ℕ) where
  abbrev pub heal_failed : Result Shown × Database → Result Shown × Database
  heal_failed (ok shown, db) = (ok shown, db)
  heal_failed (err e, db) = (ok nothing_shown, db)

  abbrev heal : PairingRow → Draw → M Database Shown
  heal row draw = do
    update_code row.id (with_code c (drawn_code draw) draw.iv)
    pure (shown_code (drawn_code draw) row.created_at)

  abbrev pub show_active : PairingRow → Option Text → Draw → M Database Shown
  show_active row (some code) draw = pure (shown_code code row.created_at)
  show_active row none draw = λ db. heal_failed (heal row draw db)

  abbrev pub show_retired : Option Text → M Database Shown
  show_retired none = pure nothing_shown
  show_retired (some previous) = do
    taken ← check_code_availability c user previous
    pure (record {
      code = none;
      created_at = none;
      previous_code = some previous;
      is_previous_available = some (is_none taken);
    })

  abbrev pub show_code : Option PairingRow → Option PairingRow → Draw → M Database Shown
  show_code (some row) retired draw = show_active row (readable_code c row.code_text) draw
  show_code none retired draw = show_retired (readable_code c (text_of retired))

  unfoldable pub get_active_forever_code : Draw → M Database Shown
  unfolding update_code check_code_availability readable_code latest_retired
  get_active_forever_code draw = do
    db ← get
    show_code (find (is_forever_of user) db.pairing_codes) (latest_retired user db.pairing_codes)
        draw

  abbrev pub log_event : SecurityEvent → Database → Database
  log_event event db = record db { security_events = db.security_events ++ event ∷ [] }

  pub log_revoked : List PairingRow → Database → Database
  log_revoked [] db = db
  log_revoked (r ∷ rs) db = log_revoked rs (log_event (pairing_revoked user r.id) db)

  abbrev pub retire : PairingRow → PairingRow
  retire r = record r { status = PairingStatus.revoked }

  abbrev pub revoke_all : List PairingRow → M Database (Unit {0})
  revoke_all [] = pure tt
  revoke_all (r ∷ rs) = do update_codes (is_forever_of user) retire; modify (log_revoked (r ∷ rs))

  pub revoke_active_forever_code : M Database (Unit {0})
  unfolding update_codes log_revoked
  revoke_active_forever_code = do db ← get; revoke_all (keep (is_forever_of user) db.pairing_codes)

  abbrev pub revoke_found : Option PairingRow → ℕ → M Database (Unit {0})
  revoke_found none id = throw (not_found "Not found")
  revoke_found (some row) id = do
    require (row.creator_user_id == user) (not_found "Not found")
    update_code id retire
    modify (log_event (pairing_revoked user id))

  unfoldable pub revoke : ℕ → M Database (Unit {0})
  unfolding update_code
  revoke id = do db ← get; revoke_found (find (has_pairing_id id) db.pairing_codes) id
