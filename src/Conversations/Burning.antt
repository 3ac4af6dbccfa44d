-- ===== src/Conversations/Burning.antt =====
-- What `burn` and the end of a temporary conversation leave, and that nothing is reached afterwards.
use pookie_chat.Prelude.{
  ◌==◌, if◌then◌else◌, ==_iff, find, keep, update, find_holds, update-update, ℕ, ◌≡◌, refl, sym, ap,
  ◌∙◌, subst, ◌⊎◌, inl, inr, Bool, true, false, not, Option, some, List, [], ◌∷◌, arith,
}
use pookie_chat.Domain.SessionEpoch.{deleted}
use pookie_chat.Server.{
  M, ◌>>=◌, ◌>>◌, get, modify, require, or_throw, unauthorized, Result, ok, err,
}
use pookie_chat.Server.Reason.{at_require, at_or_throw, at_bind}
use pookie_chat.Server.Rows.{ConversationRow, HandshakeRow, deleted, MessageRow, AttachmentRow}
use pookie_chat.Server.Database.{
  has_conversation_id, push_to_user, Event, conversation_burned, Database, Context,
}
use pookie_chat.Conversations.Tables.{
  is_deleted, is_part, with_status, destroy, expire, end_if, owned_conversation,
}
use pookie_chat.Domain.Text.{Text}
use pookie_chat.Rooms.Settings.{burn_password_hash, is_right_password}
use pookie_chat.Handshake.{is_past, other_user}
use pookie_chat.Conversations.{burn}

-- The rows of a conversation, before and after the rows of one are removed.
keep_of_others {ℓ} :
    {A : Type ℓ} (key : A → ℕ) (id other : ℕ) (xs : List A)
    → keep (λ a. key a == other) (keep (λ a. not (key a == id)) xs)
      ≡ (if other == id then [] else keep (λ a. key a == other) xs)
unfolding keep
keep_of_others key id other [] = ground arith
keep_of_others key id other (x ∷ xs) = ground (arith, keep_of_others key id other xs)

if_again {ℓ} :
    {A : Type ℓ} (b : Bool) (xs ys : List A)
    → ys ≡ (if b then [] else xs)
    → (if b then [] else ys) ≡ (if b then [] else xs)
if_again true xs ys e = refl
if_again false xs ys e = e

-- The messages, attachments and handshakes of the conversation are gone, those of every other
-- conversation are as before, and it is marked as deleted.
pub record IsGone (id : ℕ) (db after : Database) : Type 0 where
  pub messages :
      (other : ℕ)
      → keep (λ (m : MessageRow). m.conversation_id == other) after.chat_messages ≡ (
          if other == id
          then []
          else keep (λ (m : MessageRow). m.conversation_id == other) db.chat_messages)
  pub attachments :
      (other : ℕ)
      → keep (λ (a : AttachmentRow). a.conversation_id == other) after.attachments ≡ (
          if other == id
          then []
          else keep (λ (a : AttachmentRow). a.conversation_id == other) db.attachments)
  pub handshakes :
      (other : ℕ)
      → keep (λ (h : HandshakeRow). h.conversation_id == other) after.handshakes ≡ (
          if other == id
          then []
          else keep (λ (h : HandshakeRow). h.conversation_id == other) db.handshakes)
  pub conversations :
      after.conversations ≡ update (has_conversation_id id) (with_status deleted) db.conversations
  pub passwords : after.burn_passwords ≡ db.burn_passwords

pub destroy-IsGone : (id : ℕ) (db : Database) → IsGone id db (destroy id db)
unfolding destroy
destroy-IsGone id db = record {
  messages = λ other. keep_of_others (λ (m : MessageRow). m.conversation_id) id other _;
  attachments = λ other. keep_of_others (λ (a : AttachmentRow). a.conversation_id) id other _;
  handshakes = λ other. keep_of_others (λ (h : HandshakeRow). h.conversation_id) id other _;
  conversations = refl;
  passwords = refl;
}

pub expire-IsGone : (convo : ConversationRow) (db : Database) → IsGone convo.id db (expire convo db)
unfolding expire
expire-IsGone convo db =
    let gone = destroy-IsGone convo.id db in
    record {
      messages = gone.messages;
      attachments = gone.attachments;
      handshakes = gone.handshakes;
      conversations = gone.conversations;
      passwords = gone.passwords;
    }

IsGone-again :
    (id : ℕ) (db middle : Database) → IsGone id db middle → IsGone id db (destroy id middle)
IsGone-again id db middle gone =
    let again = destroy-IsGone id middle in
    record {
      messages = λ other. again.messages other ∙ if_again (other == id) _ _ (gone.messages other);
      attachments =
          λ other. again.attachments other ∙ if_again (other == id) _ _ (gone.attachments other);
      handshakes =
          λ other. again.handshakes other ∙ if_again (other == id) _ _ (gone.handshakes other);
      conversations =
          again.conversations
          ∙ ap (update (has_conversation_id id) (with_status deleted)) gone.conversations
          ∙ update-update (has_conversation_id id) (with_status deleted) (with_status deleted)
              (λ r. refl) db.conversations;
      passwords = again.passwords ∙ gone.passwords;
    }

module _ (c : Context) (user id : ℕ) where
  -- The conversation is there, and its time has passed.
  abbrev pub IsOver : Database → Type 0
  IsOver db =
      (row : ConversationRow) × (find (has_conversation_id id) db.conversations ≡ some row)
      × (is_past c.now row.expires_at ≡ true)

  -- Ending an expired conversation is all that the look at a conversation can change.
  abbrev pub HasEnded : Database → Database → Type 0
  HasEnded db after = (after ≡ db) ⊎ (IsGone id db after × IsOver db)

  abbrev pub Owned : Database → Result ConversationRow × Database → Type 0
  Owned db (ok convo, after) =
      HasEnded db after
      × ((row : ConversationRow) × (find (has_conversation_id id) db.conversations ≡ some row)
          × (is_part user row ≡ true))
      × (((after ≡ db) × (find (has_conversation_id id) db.conversations ≡ some convo))
          ⊎ (is_deleted convo.status ≡ true))
  Owned db (err e, after) = after ≡ db

  end_if-Owned :
      (b : Bool) (convo : ConversationRow) (db : Database)
      → find (has_conversation_id id) db.conversations ≡ some convo
      → is_part user convo ≡ true
      → (b ≡ true → is_past c.now convo.expires_at ≡ true)
      → Owned db (end_if b convo db)
  end_if-Owned true convo db found part over =
      let same : convo.id ≡ id =
        (==_iff convo.id id).0 (find_holds (has_conversation_id id) db.conversations convo found) in
      (
        inr (
          subst (λ (k : ℕ). IsGone k db (expire convo db)) same (expire-IsGone convo db),
          (convo, found, over refl),
        ),
        (convo, found, part),
        inr refl,
      )
  end_if-Owned false convo db found part over = (inl refl, (convo, found, part), inl (refl, found))

  pub owned_conversation-Owned : (db : Database) → Owned db (owned_conversation c user id db)
  unfolding owned_conversation
  owned_conversation-Owned db =
      at_or_throw (Owned db) (find (has_conversation_id id) db.conversations) _ _ db refl
        λ convo found.
          at_require (Owned db) (is_part user convo) _ _ db refl
            λ part. end_if-Owned _ convo db found part (λ e. ground arith)

  -- What a burning tells: it was asked for by one of the two users, with the burn password.
  pub record HasBurned (password : Option Text) (db after : Database) : Type 0 where
    pub row : ConversationRow
    pub found : find (has_conversation_id id) db.conversations ≡ some row
    pub part : is_part user row ≡ true
    pub hash : Text
    pub configured : burn_password_hash user db.burn_passwords ≡ some hash
    pub right : is_right_password c password hash ≡ true
    pub gone : IsGone id db after

  abbrev pub IsBurned : Option Text → Database → Result (Unit {0}) × Database → Type 0
  IsBurned password db (ok done, after) = HasBurned password db after
  IsBurned password db (err e, after) = HasEnded db after

  HasEnded-destroy : (db middle : Database) → HasEnded db middle → IsGone id db (destroy id middle)
  HasEnded-destroy db middle (inl same) =
      subst (λ (d : Database). IsGone id db (destroy id d)) (sym same) (destroy-IsGone id db)
  HasEnded-destroy db middle (inr gone) = IsGone-again id db middle gone.0

  HasEnded-passwords :
      (db middle : Database) → HasEnded db middle → middle.burn_passwords ≡ db.burn_passwords
  HasEnded-passwords db middle (inl same) = ap (λ (d : Database). d.burn_passwords) same
  HasEnded-passwords db middle (inr gone) = gone.0.passwords

  -- What follows the look at the conversation.
  abbrev pub burn_owned : Option Text → ConversationRow → M Database (Unit {0})
  burn_owned password convo = do
    db ← get
    hash ←
        or_throw (burn_password_hash user db.burn_passwords)
          (unauthorized "Burn Password is not configured. Please set a Burn Password first.")
    require (is_right_password c password hash) (unauthorized "Incorrect Burn Password")
    modify (destroy id)
    modify (push_to_user (other_user user convo) (conversation_burned id))

  pushed-IsGone :
      (someone : ℕ) (event : Event) (db after : Database)
      → IsGone id db after
      → IsGone id db (push_to_user someone event after)
  unfolding push_to_user
  pushed-IsGone someone event db after gone = record {
    messages = gone.messages;
    attachments = gone.attachments;
    handshakes = gone.handshakes;
    conversations = gone.conversations;
    passwords = gone.passwords;
  }

  burn_owned-IsBurned :
      (password : Option Text) (db middle : Database) (convo row : ConversationRow)
      → HasEnded db middle
      → find (has_conversation_id id) db.conversations ≡ some row
      → is_part user row ≡ true
      → IsBurned password db (burn_owned password convo middle)
  burn_owned-IsBurned password db middle convo row ended found part =
      at_or_throw (IsBurned password db) (burn_password_hash user middle.burn_passwords) _ _ middle
        ended
        λ hash configured.
          at_require (IsBurned password db) (is_right_password c password hash) _ _ middle ended
            λ right. record {
              row = row;
              found = found;
              part = part;
              hash = hash;
              configured =
                  ap (burn_password_hash user) (sym (HasEnded-passwords db middle ended))
                  ∙ configured;
              right = right;
              gone =
                  pushed-IsGone (other_user user convo) (conversation_burned id) db
                    (destroy id middle) (HasEnded-destroy db middle ended);
            }

  -- `burn`: where it returns, one of the two users asked for it with the burn password, the
  -- messages, attachments and handshakes of the conversation are gone, those of the others are as
  -- before, and it is marked as deleted; where it fails, nothing has changed, unless the
  -- conversation had expired and is ended by that.
  pub burn-IsBurned :
      (password : Option Text) (db : Database) → IsBurned password db (burn c user id password db)
  unfolding burn
  burn-IsBurned password db =
      at_bind (IsBurned password db) (Owned db) (owned_conversation c user id db)
        (burn_owned password) (owned_conversation-Owned db) (λ e s h. inl h)
        (λ convo s h. burn_owned-IsBurned password db s convo h.1.0 h.0 h.1.1 h.1.2)
