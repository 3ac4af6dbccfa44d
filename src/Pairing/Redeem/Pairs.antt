-- ===== src/Pairing/Redeem/Pairs.antt =====
-- The table of conversations under `redeem`: one row for two users, the smaller id in front.
use pookie_chat.Prelude.{
  ltb, if◌then◌else◌, Bool-cases, find, count, count-append, count-none, All, All-append,
  All-update, count-update, ℕ, ◌≤◌, ◌<◌, ◌≡◌, refl, subst, ◌≢◌, inl, inr, Bool, true, false, Option,
  none, some, List, [], ◌∷◌, ◌++◌, arith,
}
use pookie_chat.Domain.Text.{Text}
use pookie_chat.Server.{Result, ok, err}
use pookie_chat.Server.Rows.{PairingRow, ConversationRow}
use pookie_chat.Server.Database.{has_conversation_id, Database, Context}
use pookie_chat.Pairing.Redeem.{
  canonical_pair, is_pair, renewed, temporary_creator, fits, redeem, Redeemed,
}
use pookie_chat.Pairing.Redeem.Transaction.{their_conversation, conversations_after, Outcome}
use pookie_chat.Pairing.Redeem.Outcome.{redeem-Outcome}

-- Every row has its users in order, and no two rows are of the same two.
pub record ArePairs (rows : List ConversationRow) : Type 0 where
  pub ordered : All (λ r. r.user_a_id < r.user_b_id) rows
  pub single : (a b : ℕ) → count (is_pair a b) rows ≤ 1

canonical_ordered : (a b : ℕ) → a ≢ b → (canonical_pair a b).0 < (canonical_pair a b).1
canonical_ordered a b apart = elim (Bool-cases (ltb a b)) [
  | inl below ↦ rw below (ground arith)
  | inr above ↦ rw above (ground arith)
]

renewed_ordered :
    (b : Bool) (expires_at creator : Option ℕ) (r : ConversationRow)
    → r.user_a_id < r.user_b_id
    → (if b then renewed expires_at creator r else r).user_a_id
      < (if b then renewed expires_at creator r else r).user_b_id
renewed_ordered true expires_at creator r h = h
renewed_ordered false expires_at creator r h = h

added_single :
    (rows : List ConversationRow) (entry : ConversationRow) (a b : ℕ)
    → find (is_pair entry.user_a_id entry.user_b_id) rows ≡ none
    → count (is_pair a b) rows ≤ 1
    → count (is_pair a b) (rows ++ entry ∷ []) ≤ 1
unfolding count
added_single rows entry a b new single = elim (Bool-cases (is_pair a b entry)) [
  | inl fits ↦
      let first : entry.user_a_id ≡ a = ground arith in
      let second : entry.user_b_id ≡ b = ground arith in
      let nothing : count (is_pair a b) rows ≡ 0 = count-none (is_pair a b) rows (
        subst (λ x. find (is_pair x b) rows ≡ none) first
          (subst (λ x. find (is_pair entry.user_a_id x) rows ≡ none) second new)) in
      rw (count-append (is_pair a b) rows (entry ∷ []), nothing, fits) (omega arith)
  | inr off ↦ rw (count-append (is_pair a b) rows (entry ∷ []), off) (omega arith)
]

module _ (c : Context) (redeemer : ℕ) (db : Database) where
  after-ArePairs :
      (entry : PairingRow) (o : Option ConversationRow)
      → entry.creator_user_id ≢ redeemer
      → their_conversation c redeemer entry db ≡ o
      → ArePairs db.conversations
      → ArePairs (conversations_after c redeemer entry db o)
  after-ArePairs entry none other e v = record {
    ordered =
        All-append (λ (r : ConversationRow). r.user_a_id < r.user_b_id) db.conversations _ v.ordered
          (canonical_ordered entry.creator_user_id redeemer other, tt);
    single = λ a b. added_single db.conversations _ a b e (v.single a b);
  }
  after-ArePairs entry (some existing) other e v = record {
    ordered =
        All-update _ (λ (r : ConversationRow). r.user_a_id < r.user_b_id)
          (has_conversation_id existing.id)
          (renewed entry.expires_at (temporary_creator c redeemer entry))
          (λ r h.
            renewed_ordered (has_conversation_id existing.id r) entry.expires_at
              (temporary_creator c redeemer entry) r h)
          db.conversations v.ordered;
    single = λ a b.
        rw
          (count-update (is_pair a b) (has_conversation_id existing.id)
            (renewed entry.expires_at (temporary_creator c redeemer entry)) (λ r. refl)
            db.conversations)
          (v.single a b);
  }

  Outcome-ArePairs :
      (code : Text) (q : Result Redeemed × Database)
      → ArePairs db.conversations
      → Outcome c redeemer code db q
      → ArePairs q.1.conversations
  Outcome-ArePairs code (ok out, after) v h =
      rw h.conversations
        (after-ArePairs h.row (their_conversation c redeemer h.row db) h.not_self refl v)
  Outcome-ArePairs code (err e, after) v h = rw h.0 v

  -- A redemption, whether it succeeds or fails, keeps the table of conversations: two users have at
  -- most one, and it has the smaller id in front.
  pub redeem-ArePairs :
      (code : Text)
      → ArePairs db.conversations
      → ArePairs (redeem c redeemer code db).1.conversations
  redeem-ArePairs code v =
      Outcome-ArePairs code (redeem c redeemer code db) v (redeem-Outcome c redeemer code db)
