-- ===== src/Pairing/Active/Showing.antt =====
-- What `getActiveForeverCode` shows.
use pookie_chat.Prelude.{
  ==_refl, Option-cases, find, update, find-update, ℕ, ◌≡◌, refl, ◌∙◌, inl, inr, Option, none, some,
}
use pookie_chat.Domain.Text.{Text}
use pookie_chat.Domain.PairingCode.Sealing.{AreSound}
use pookie_chat.Server.{Result, ok, err}
use pookie_chat.Server.Rows.{PairingRow}
use pookie_chat.Server.Database.{Database, Context}
use pookie_chat.Pairing.Tables.{
  is_forever_of, has_pairing_id, update_codes, update_code, readable_code, drawn_code, with_code,
  Draw,
}
use pookie_chat.Pairing.Reason.{at_write}
use pookie_chat.Pairing.Create.{check_code_availability}
use pookie_chat.Pairing.Create.Forever.{IsDraw, drawn-IsCode, readable-sealed}
use pookie_chat.Pairing.Active.{
  Shown, text_of, latest_retired, heal_failed, show_active, show_retired, get_active_forever_code,
}

module _ (c : Context) (user : ℕ) where
  -- The text belongs to the active forever code of the user, or nothing was written.
  abbrev ShowsCode : Option Text → Option ℕ → Database → Database → Type 0
  ShowsCode (some code) created_at db after =
      (row : PairingRow) × (find (is_forever_of user) after.pairing_codes ≡ some row)
      × (some row.created_at ≡ created_at)
      × (readable_code c row.code_text ≡ some code)
  ShowsCode none created_at db after = after ≡ db

  abbrev pub Shows : Database → Result Shown × Database → Type 0
  Shows db (ok shown, after) = ShowsCode shown.code shown.created_at db after
  Shows db (err e, after) = ⊥

  active-Shows :
      (row : PairingRow) (draw : Draw) (db : Database)
      → AreSound c.primitives
      → IsDraw draw
      → find (is_forever_of user) db.pairing_codes ≡ some row
      → (o : Option Text) → readable_code c row.code_text ≡ o
      → Shows db (show_active c user row o draw db)
  unfolding update_code update_codes
  active-Shows row draw db sound is_draw found (some code) known = (row, found, refl, known)
  active-Shows row draw db sound is_draw found none lost =
      at_write (λ q. Shows db (heal_failed c user q))
        (update (has_pairing_id row.id) (with_code c (drawn_code draw) draw.iv) db.pairing_codes) _
        db refl
        λ free. (
          with_code c (drawn_code draw) draw.iv row,
          find-update (is_forever_of user) (has_pairing_id row.id)
                (with_code c (drawn_code draw) draw.iv) (λ r. refl) db.pairing_codes
              ∙ rw (found, ==_refl row.id) refl,
          refl,
          readable-sealed c user sound (drawn_code draw) draw.iv (drawn-IsCode draw is_draw)
              is_draw.0,
        )

  retired-Shows : (o : Option Text) (db : Database) → Shows db (show_retired c user o db)
  unfolding check_code_availability
  retired-Shows none db = refl
  retired-Shows (some previous) db = refl

  -- `getActiveForeverCode` always returns. A text that it shows is the one that can be read in the
  -- user's active forever code, beside its time of creation, also when the code could not be read
  -- before; where it shows none, nothing was written. The primitives keep their documented laws, and
  -- the draw is six places of the alphabet with an initialisation vector.
  get_active_forever_code-Shows :
      (draw : Draw) (db : Database)
      → AreSound c.primitives
      → IsDraw draw
      → Shows db (get_active_forever_code c user draw db)
  unfolding get_active_forever_code
  get_active_forever_code-Shows draw db sound is_draw =
      elim (Option-cases (find (is_forever_of user) db.pairing_codes)) [
        | inl nothing ↦
            rw nothing
              (retired-Shows (readable_code c (text_of (latest_retired user db.pairing_codes))) db)
        | inr (row, found) ↦
            rw found
              (active-Shows row draw db sound is_draw found (readable_code c row.code_text) refl)
      ]
