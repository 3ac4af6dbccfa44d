-- ===== src/Realtime.antt =====
-- apps/backend/src/realtime/connection-registry.service.ts: the sockets of the users who are online,
-- and the limit on typing events. A map of sets is a function to lists; a set that is empty and one
-- that is missing answer alike.
pub mod Capacity
pub mod Live
pub mod Typing
use pookie_chat.Prelude.{
  ltb, leb, ◌==◌, if◌then◌else◌, length, keep, any, count, ℕ, ◌+◌, ◌-◌, Bool, true, false, not,
  Option, none, some, List, [], ◌∷◌, ◌++◌, map,
}

pub record Window : Type 0 where
  pub count : ℕ
  pub window_start : ℕ

-- `emitted` has what was sent to sockets, oldest first; `closed` the sockets told to disconnect.
pub record Registry : Type 0 where
  pub connections : ℕ → List ℕ
  pub device_connections : ℕ → List ℕ
  pub typing_windows : ℕ → Option Window
  pub emitted : List (ℕ × ℕ)
  pub closed : List ℕ

abbrev pub max_sockets_per_user : ℕ
max_sockets_per_user = 8

abbrev pub typing_window_ms : ℕ
typing_window_ms = 10000

abbrev pub typing_max_per_window : ℕ
typing_max_per_window = 30

abbrev pub put {ℓ} : {A : Type ℓ} → ℕ → A → (ℕ → A) → ℕ → A
put key value f k = if k == key then value else f k

-- `Set.prototype.add` and `Set.prototype.delete`
pub add_socket : ℕ → List ℕ → List ℕ
add_socket socket sockets =
    if any (λ s. s == socket) sockets then sockets else sockets ++ socket ∷ []

pub remove_socket : ℕ → List ℕ → List ℕ
remove_socket socket sockets = keep (λ s. not (s == socket)) sockets

-- False means that the cap was hit.
pub register : ℕ → ℕ → ℕ → Registry → Bool × Registry
unfolding add_socket
register user device socket r =
    if leb max_sockets_per_user (length (r.connections user)) then (false, r) else (
      true,
      record r {
        connections = put user (add_socket socket (r.connections user)) r.connections;
        device_connections =
            put device (add_socket socket (r.device_connections device)) r.device_connections;
      },
    )

pub unregister : ℕ → ℕ → ℕ → Registry → Registry
unfolding remove_socket
unregister user device socket r = record r {
  connections = put user (remove_socket socket (r.connections user)) r.connections;
  device_connections =
      put device (remove_socket socket (r.device_connections device)) r.device_connections;
}

-- The decision, and the window afterwards.
abbrev pub typing_in : Option Window → ℕ → Bool × Window
typing_in none now = (true, record { count = 1; window_start = now })
typing_in (some w) now =
    if ltb typing_window_ms (now - w.window_start)
    then (true, record { count = 1; window_start = now })
    else if leb typing_max_per_window w.count
    then (false, w)
    else (true, record w { count = w.count + 1 })

pub allow_typing : ℕ → ℕ → Registry → Bool × Registry
allow_typing user now r =
    let (allowed, w) = typing_in (r.typing_windows user) now in
    (allowed, record r { typing_windows = put user (some w) r.typing_windows })

-- To the sockets of one user or of one device; the reply is whether there was one.
abbrev emit_to : List ℕ → ℕ → Registry → Bool × Registry
emit_to sockets event r =
    (ltb 0 (length sockets), record r { emitted = r.emitted ++ map (λ s. (s, event)) sockets })

pub push_to_user : ℕ → ℕ → Registry → Bool × Registry
push_to_user user event r = emit_to (r.connections user) event r

pub push_to_device : ℕ → ℕ → Registry → Bool × Registry
push_to_device device event r = emit_to (r.device_connections device) event r

abbrev pub one_if : Bool → ℕ
one_if true = 1
one_if false = 0

-- The reply is the number of users who were reached.
pub push_to_users : List ℕ → ℕ → Registry → ℕ × Registry
push_to_users [] event r = (0, r)
push_to_users (user ∷ users) event r =
    let (reached, next) = push_to_user user event r in
    let (number, last) = push_to_users users event next in (one_if reached + number, last)

pub disconnect_device : ℕ → Registry → Registry
disconnect_device device r = record r { closed = r.closed ++ r.device_connections device }

pub disconnect_user : ℕ → Registry → Registry
disconnect_user user r = record r { closed = r.closed ++ r.connections user }

unfoldable get_connection_count : ℕ → Registry → ℕ
get_connection_count user r = length (r.connections user)

unfoldable is_online : ℕ → Registry → Bool
is_online user r = ltb 0 (length (r.connections user))

unfoldable is_device_online : ℕ → Registry → Bool
is_device_online device r = ltb 0 (length (r.device_connections device))
