-- ===== src/Conversations/Listed.antt =====
-- What `list` shows, and what it leaves.
use mathlib.Core.List.{reverse}
use pookie_chat.Prelude.{
  All-reverse_aux, All-kept, ◌==◌, Bool-cases, find, keep, All, All-mono, ℕ, ◌≡◌, refl, ◌⊎◌, inl,
  inr, true, false, ◌||◌, none, List, [], ◌∷◌, map, arith,
}
use pookie_chat.Server.Rows.{ConversationRow}
use pookie_chat.Server.Database.{Database, Context}
use pookie_chat.Handshake.{is_past}
use pookie_chat.Conversations.Tables.{is_deleted, expire_all}
use pookie_chat.Conversations.Listing.{listed, is_due, is_listed, list, Listed}
use pookie_chat.Conversations.Sweeping.{is_among, expire_all-AreGone, expire_all-none, AreGone}
use pookie_chat.Server.{ok}

All-map {ℓ κ} :
    {A B : Type ℓ} (P : B → Type κ) (f : A → B) (xs : List A)
    → All (λ a. P (f a)) xs
    → All P (map f xs)
All-map P f [] h = tt
All-map P f (x ∷ xs) h = (h.0, All-map P f xs h.1)

module _ (c : Context) (user : ℕ) where
  -- A conversation that is shown is one of the user's, is not deleted, and has not expired.
  abbrev pub IsShown : Listed → Type 0
  IsShown l =
      ((l.user_a_id ≡ user) ⊎ (l.user_b_id ≡ user))
      × (is_deleted l.status ≡ false)
      × (is_past c.now l.expires_at ≡ false)

  -- None of the user's conversations is left that has expired and is not deleted; what was ended is
  -- gone, and nothing else.
  pub record IsListed (db : Database) (out : List Listed) (after : Database) : Type 0 where
    pub shown : All IsShown out
    pub none_due : find (is_due c user) after.conversations ≡ none
    pub ended : AreGone (is_among (keep (is_due c user) db.conversations)) db after

  is_part-cases : (a b : ℕ) → (a == user || b == user) ≡ true → (a ≡ user) ⊎ (b ≡ user)
  is_part-cases a b h = elim (Bool-cases (a == user)) [
    | inl first ↦ inl (ground (arith, first))
    | inr other ↦ inr (ground (arith, other, h))
  ]

  listed-IsShown :
      (db : Database) (convo : ConversationRow)
      → is_listed c user convo ≡ true
      → IsShown (listed c user db convo)
  listed-IsShown db convo h =
      (is_part-cases convo.user_a_id convo.user_b_id (ground arith), ground arith, ground arith)

  -- `list`: whatever expired of the user's conversations is ended by it, so that none is left which
  -- has expired and is not deleted; the messages, attachments and handshakes of these are gone,
  -- those of all others as before; and each conversation that is shown is one of the user's, is not
  -- deleted and has not expired.
  pub list-IsListed :
      (db : Database)
      → (out : List Listed) × (after : Database) × (list c user db ≡ (ok out, after))
        × IsListed db out after
  unfolding list
  list-IsListed db =
      let after : Database = expire_all (keep (is_due c user) db.conversations) db in
      (
        map (listed c user after) (reverse (keep (is_listed c user) after.conversations)),
        after,
        refl,
        record {
          shown = All-map IsShown (listed c user after) _ (
              All-reverse_aux (λ r. IsShown (listed c user after r)) _ []
                (All-mono _ _ (listed-IsShown after) _
                  (All-kept (is_listed c user) after.conversations))
                tt);
          none_due = expire_all-none (is_due c user) db (λ r. ground arith);
          ended = expire_all-AreGone (keep (is_due c user) db.conversations) db;
        },
      )
