-- ===== src/Realtime/Live.antt =====
-- connection-registry.service.ts with the gateway that calls it (realtime.gateway.ts): the
-- connections that the gateway has taken. Its handler of a connection waits for the database before it
-- registers the socket, which may close meanwhile; it is unregistered with the same user and device.
pub mod Sets
pub mod Refinement
use pookie_chat.Prelude.{
  leb, ◌==◌, if◌then◌else◌, find, keep, any, count, update, ℕ, suc, ◌+◌, ◌≤◌, ◌≡◌, Bool, true,
  false, not, none, some, List, [], ◌∷◌, ◌++◌, map,
}
use pookie_chat.Realtime.{
  max_sockets_per_user, register, unregister, allow_typing, push_to_device, push_to_users,
  disconnect_device, disconnect_user, Registry,
}

pub record Connection : Type 0 where
  pub user : ℕ
  pub device : ℕ
  pub socket : ℕ
  pub is_open : Bool

abbrev pub is_of_user : ℕ → Connection → Bool
is_of_user user c = c.user == user

abbrev pub is_of_device : ℕ → Connection → Bool
is_of_device device c = c.device == device

abbrev pub has_socket : ℕ → Connection → Bool
has_socket socket c = c.socket == socket

abbrev pub sockets_of : (Connection → Bool) → List Connection → List ℕ
sockets_of p live = map (λ c. c.socket) (keep p live)

-- A connection more, unless the user has eight.
abbrev pub connect : Connection → List Connection → List Connection
connect c live =
    if leb max_sockets_per_user (count (is_of_user c.user) live) then live else live ++ c ∷ []

abbrev pub disconnect : ℕ → List Connection → List Connection
disconnect socket live = keep (λ c. not (has_socket socket c)) live

abbrev pub no_connections : Registry
no_connections = record {
  connections = λ _. [];
  device_connections = λ _. [];
  typing_windows = λ _. none;
  emitted = [];
  closed = [];
}

abbrev pub is_stale : Connection → Bool
is_stale c = not c.is_open

-- The socket of a connection closes while its handler waits.
abbrev pub close : Connection → Connection
close c = record c { is_open = false }

abbrev pub unregister_if : Bool → Connection → Registry → Registry
unregister_if told c r = if told then unregister c.user c.device c.socket r else r

-- What the gateway may have done: how many sockets have closed while their handler waited, the
-- connections whose handler waits, those that were taken, and the registry.
pub data Runs : ℕ → List Connection → List Connection → Registry → Type 0 where
  begins : Runs 0 [] [] no_connections
  -- `handleConnection` begins, and waits for the database.
  opens :
      {n : ℕ} {waiting entered : List Connection} {r : Registry}
      → (c : Connection) → Runs n waiting entered r
      → c.is_open ≡ true
      → any (has_socket c.socket) waiting ≡ false
      → any (has_socket c.socket) entered ≡ false
      → Runs n (waiting ++ c ∷ []) entered r
  -- It goes on, whether or not the socket is still open; where the registry is full it refuses.
  takes :
      {n : ℕ} {waiting entered : List Connection} {r : Registry}
      → (c : Connection) → Runs n waiting entered r
      → find (has_socket c.socket) waiting ≡ some c
      → Runs n
          (disconnect c.socket waiting)
          (connect c entered)
          (register c.user c.device c.socket r).1
  -- It stops before the registration: the token or the device is no good, or the database fails.
  fails :
      {n : ℕ} {waiting entered : List Connection} {r : Registry}
      → (c : Connection) → Runs n waiting entered r
      → find (has_socket c.socket) waiting ≡ some c
      → Runs n (disconnect c.socket waiting) entered r
  -- `handleDisconnect` while the handler of the connection waits; it unregisters the socket if the
  -- user was noted already.
  drops :
      {n : ℕ} {waiting entered : List Connection} {r : Registry}
      → (noted : Bool) (c : Connection) → Runs n waiting entered r
      → find (has_socket c.socket) waiting ≡ some c
      → c.is_open ≡ true
      → Runs (suc n) (update (has_socket c.socket) close waiting) entered (unregister_if noted c r)
  -- `handleDisconnect` of a connection that was taken. A socket closes once.
  disconnects :
      {n : ℕ} {waiting entered : List Connection} {r : Registry}
      → (c : Connection) → Runs n waiting entered r
      → find (has_socket c.socket) entered ≡ some c
      → c.is_open ≡ true
      → Runs n waiting (disconnect c.socket entered) (unregister c.user c.device c.socket r)
  -- `handleDisconnect` of one that was not.
  misses :
      {n : ℕ} {waiting entered : List Connection} {r : Registry}
      → (noted : Bool) (c : Connection) → Runs n waiting entered r
      → any (has_socket c.socket) waiting ≡ false
      → any (has_socket c.socket) entered ≡ false
      → Runs n waiting entered (unregister_if noted c r)
  types :
      {n : ℕ} {waiting entered : List Connection} {r : Registry}
      → (user now : ℕ) → Runs n waiting entered r
      → Runs n waiting entered (allow_typing user now r).1
  pushes :
      {n : ℕ} {waiting entered : List Connection} {r : Registry}
      → (users : List ℕ) (event : ℕ) → Runs n waiting entered r
      → Runs n waiting entered (push_to_users users event r).1
  pushes_to_device :
      {n : ℕ} {waiting entered : List Connection} {r : Registry}
      → (device event : ℕ) → Runs n waiting entered r
      → Runs n waiting entered (push_to_device device event r).1
  closes_device :
      {n : ℕ} {waiting entered : List Connection} {r : Registry}
      → (device : ℕ) → Runs n waiting entered r
      → Runs n waiting entered (disconnect_device device r)
  closes_user :
      {n : ℕ} {waiting entered : List Connection} {r : Registry}
      → (user : ℕ) → Runs n waiting entered r
      → Runs n waiting entered (disconnect_user user r)

-- The registry shows the connections, by user and by device.
pub record Shows (entered : List Connection) (r : Registry) : Type 0 where
  pub unique : (socket : ℕ) → count (has_socket socket) entered ≤ 1
  pub by_user : (user : ℕ) → r.connections user ≡ sockets_of (is_of_user user) entered
  pub by_device :
      (device : ℕ) → r.device_connections device ≡ sockets_of (is_of_device device) entered

-- The registry shows the connections that were taken. A socket is in one place, and no more than the
-- number n of the connections that wait or were taken are stale.
pub record Refines (n : ℕ) (waiting entered : List Connection) (r : Registry) : Type 0 where
  pub shows : Shows entered r
  pub once :
      (socket : ℕ) → count (has_socket socket) waiting + count (has_socket socket) entered ≤ 1
  pub stale : count is_stale waiting + count is_stale entered ≤ n
