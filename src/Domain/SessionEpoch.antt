-- ===== src/Domain/SessionEpoch.antt =====
-- apps/backend/src/domain/sessionEpoch.ts, and its client-side half,
-- apps/web/lib/crypto/sessionFreshness.ts.
use pookie_chat.Prelude.{◌==◌, ℕ, ◌+◌, ◌≡◌, Bool, true, false, not, ◌||◌, Option, none, some, arith}

pub data ConversationStatus : Type 0 where
  active blocked_by_a blocked_by_b deleted : ConversationStatus

unfoldable next_epoch : ℕ → ℕ
next_epoch current_epoch = current_epoch + 1

unfoldable pub is_stale_epoch : Option ℕ → ℕ → Bool
is_stale_epoch none current_epoch = true
is_stale_epoch (some claimed_epoch) current_epoch = not (claimed_epoch == current_epoch)

unfoldable pub is_usable_for_handshake : ConversationStatus → Bool
is_usable_for_handshake active = true
is_usable_for_handshake _ = false

-- `isSessionStale`, over the epoch of the session and what the server reports.
pub is_session_stale : ℕ → ConversationStatus → ℕ → Bool
is_session_stale epoch active session_epoch = not (epoch == session_epoch)
is_session_stale epoch _ session_epoch = true

-- The client and the server agree on what is stale: the client trusts a session exactly if the
-- server would accept a message that carries its epoch.
stale_agree :
    (epoch session_epoch : ℕ) (status : ConversationStatus)
    → is_session_stale epoch status session_epoch
      ≡ (not (is_usable_for_handshake status) || is_stale_epoch (some epoch) session_epoch)
unfolding is_session_stale is_usable_for_handshake is_stale_epoch
stale_agree epoch session_epoch status = ground arith
