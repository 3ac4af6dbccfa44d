-- ===== src/Lib.antt =====
-- A model of pookie-chat, a chat service with end-to-end encryption, and what it guarantees: the
-- rules of apps/backend/src/domain, the services of rooms, of pairing codes, of handshakes, of
-- conversations and their messages and of sessions, and the lock of the web application.
--
-- The parts. Users find each other by a pairing code (apps/backend/src/pairing): its creator gives
-- it to the other one, who redeems it, and the two have a conversation, in a new session epoch at
-- every pairing. Or one of them asks by username and the other one accepts
-- (apps/backend/src/conversation-requests). The handshake that begins the encrypted session waits at
-- the server (apps/backend/src/handshake) under the epoch of the conversation. The messages of a
-- conversation (apps/backend/src/messages) are numbered and carry a version, by which the other
-- user's device syncs; conversations are blocked, burned, given a timer or an end
-- (apps/backend/src/conversations). Rooms (apps/backend/src/rooms) have an owner, members, join
-- requests, numbered messages and key packages. A login gives a device a session, whose refresh token
-- is rotated at every use (apps/backend/src/auth). All of them use the rules of
-- apps/backend/src/domain, share the database, and push events to the sockets of users. In the
-- browser a lock hides the application while its user is away (apps/web/lib/applock).
--
-- The files. Prelude has the shared helpers on lists and tests.
--   Domain/Lockout: domain/lockout.ts           Domain/PairingCode: domain/pairingCode.ts
--   Domain/MessageState: domain/messageState.ts Domain/SessionEpoch: domain/sessionEpoch.ts, and
--   apps/web/lib/crypto/sessionFreshness.ts     Domain/DeviceIdentity: domain/deviceIdentity.ts
--   Domain/RoomRules: domain/room.ts            Domain/Username: domain/username.ts
--   Domain/Text: what these use of the strings of JavaScript
-- Server says how a request runs (`M`: it reads and writes the database and returns or throws, and
-- what was written before a throw stays, save in a transaction); Server/Rows has the rows of
-- apps/backend/prisma/schema.prisma, Server/Database the tables, Server/Reason the rules to follow a
-- request. An operation has the name of the method, in snake case:
--   Rooms: rooms.service.ts (create, join_by_code, accept_request, send_message,
--     update_room_settings for updateRoom, and so on)
--   Pairing: pairing.service.ts (create, check_code_availability, get_active_forever_code, revoke,
--     redeem)
--   Handshake: handshake.service.ts (store, fetch)
--   Conversations: conversations.service.ts (block, unblock, burn, set_disappearing_timer,
--     extend_temporary_chat; in Listing list and get_status)
--   Messages: messages.service.ts (send with its create_loop; in Sync sync, mark_read and
--     get_message_statuses; in Changes delete_message, edit_message and the sweeps), and
--     linkToMessage and deleteForMessage of attachments.service.ts
--   ConversationRequests: conversation-requests.service.ts
--   Auth: auth.service.ts, domain/tokens.ts and domain/email.ts (in Devices find_or_create_device and
--     issue_session; in Sessions refresh, logout, list_sessions and the revoking of sessions; in Login
--     login, with UnknownNames; in Emails verify_email, resend_verification and add_email; in Accounts
--     change_username and change_password), and access-token.guard.ts (Guard)
--   AppLock: lifecycle.ts, an event by its name (init, handle_departure, attempt_unlock, and so on); in
--     Gate AppLockGate.tsx, which passes the events on (happen) and renders the page or the lock screen
--     (shows_children)
--   Realtime: apps/backend/src/realtime/connection-registry.service.ts, and in Live the connections that
--     realtime.gateway.ts has registered there, each after its waits for the database (Runs); the
--     pushes that the services make are kept in the state of the model, and not sent through it.
-- Examples has the theorems at concrete inputs.
--
-- How the code is read. Ids are numbers, compared by equality and, in `canonicalPair`, by order.
-- Instants are milliseconds since the epoch, and a request reads the clock once (`Context.now`).
-- Texts are lists of UTF-16 code units; the case of units outside ASCII is a parameter.
-- node:crypto and Buffer are the parameters `Primitives`, whose documented laws are `AreSound`;
-- `verifyPassword` and whether a user is online are parameters of the context. What is drawn at
-- random is an argument. A unique constraint that is violated (P2002) is the exception
-- `unique_violation`; foreign keys are left out. Tables are in the order of creation, by which the
-- code sorts. The hash of the burn password has a table of its own.
-- Each operation runs without interruption, except where a message gets its number: an argument
-- holds the messages that others store between the reading of the maximum and the insertion, in each
-- round (`Rounds`; none where the list has ended). These retry loops take their rounds from a list
-- or by a count and stop after five, as the code does (MAX_SEQUENCE_RETRY_ATTEMPTS): the count they
-- begin with is that of the code, so that none ends early. The refreshing of a session is given what
-- others do between its reading and its writing. The sweeps run one at a time; the timers that start
-- them are left out. `maxMembers` of a request is a whole number that is not negative. The
-- message of updateRoom for a limit that is too small leaves out the count. Of what is pushed to
-- sockets the payload is cut to ids and numbers.
-- Auth has the maps that the service keeps in memory (`recentRotations`, `unknownLoginAttempts`) as
-- lists with a key; the encoding of an access token and Cloudflare's answer are parameters; the lock
-- settings and the time of the next change of the name are left out of the replies.
--
-- In AppLock an event runs to its end before the next one, and the departure timer is an event that
-- may come at any time after it was set; storage for no user is not there, since every use of it
-- that the state machine reaches has a user. A load of a protected page shows nothing until it ends,
-- so it is one event; the form that sets a first PIN on a device is left out.
--
-- What is not modelled: the read-only listUserRooms of rooms.service.ts; of auth.service.ts the
-- registration, the login by Google, the deletion of an account and the reads getMe and
-- verifyUserPassword; files in the object store,
-- whose deletion a burning or a deleted message asks for; the upload and download of attachments; the
-- socket gateway but for its use of the registry, users, settings, mail, notifications and administration; and the rest of
-- the web application. They are other components with state of their own, or input and output.
pub mod Prelude
pub mod Domain
pub mod Server
pub mod Rooms
pub mod Pairing
pub mod Handshake
pub mod AppLock
pub mod Auth
pub mod Realtime
pub mod Conversations
pub mod Messages
pub mod ConversationRequests
pub mod Examples
