-- ===== src/Realtime/Live/Refinement.antt =====
-- realtime.gateway.ts, connection-registry.service.ts: the registry and the connections, step by step.
use pookie_chat.Prelude.{
  leb, ◌==◌, if◌then◌else◌, ==_iff, Bool-cases, length, find, keep, any, count, update,
  count-append, count-keep-le, All, All-mono, count-update, any-All_none, count-any, count_zero-All,
  found-only, ℕ, suc, ◌+◌, ◌≤◌, ◌≡◌, refl, subst, inl, inr, Bool, true, false, not, some, List, [],
  ◌∷◌, ◌++◌, arith,
}
use pookie_chat.Realtime.{
  max_sockets_per_user, register, unregister, allow_typing, push_to_user, push_to_device,
  push_to_users, disconnect_device, disconnect_user, Registry,
}
use pookie_chat.Realtime.Live.{
  is_of_user, has_socket, connect, disconnect, is_stale, close, unregister_if, Connection, Runs,
  begins, opens, takes, fails, drops, disconnects, misses, types, pushes, pushes_to_device,
  closes_device, closes_user, Shows, Refines,
}
use pookie_chat.Realtime.Live.Sets.{
  length-sockets, disconnect_missing, ShowsBy-added, ShowsBy-removed,
}

module _ {live : List Connection} {r : Registry} (c : Connection) (s : Shows live r) where
  guarded :
      leb max_sockets_per_user (count (is_of_user c.user) live) ≡ false
      → leb max_sockets_per_user (length (r.connections c.user)) ≡ false
  guarded room = rw (s.by_user c.user, length-sockets (is_of_user c.user) live) room

  unique_added :
      any (has_socket c.socket) live ≡ false
      → (socket : ℕ) → count (has_socket socket) (live ++ c ∷ []) ≤ 1
  unfolding count
  unique_added fresh socket =
      rw (count-append (has_socket socket) live (c ∷ [])) (elim (Bool-cases (c.socket == socket)) [
        | inl same ↦ ground (
          arith,
          count-any (has_socket socket) live (
              subst (λ k. any (has_socket k) live ≡ false) ((==_iff c.socket socket).0 same) fresh),
        )
        | inr other ↦ ground (arith, s.unique socket)
      ])

  Shows-register :
      any (has_socket c.socket) live ≡ false
      → Shows (connect c live) (register c.user c.device c.socket r).1
  unfolding register
  Shows-register fresh =
      elim (Bool-cases (leb max_sockets_per_user (count (is_of_user c.user) live))) [
        | inl full ↦ rw (s.by_user c.user, length-sockets (is_of_user c.user) live, full) s
        | inr room ↦
            rw (guarded room, room)
              (record {
                unique = λ socket. unique_added fresh socket;
                by_user = ShowsBy-added (λ x. x.user) live r.connections c s.by_user fresh;
                by_device =
                    ShowsBy-added (λ x. x.device) live r.device_connections c s.by_device fresh;
              })
      ]

  Shows-removed :
      All (λ x. has_socket c.socket x ≡ true → c ≡ x) live
      → Shows (disconnect c.socket live) (unregister c.user c.device c.socket r)
  unfolding unregister
  Shows-removed only = record {
    unique = λ socket. omega (
      arith,
      s.unique socket,
      count-keep-le (has_socket socket) (λ x. not (has_socket c.socket x)) live,
    );
    by_user = ShowsBy-removed (λ x. x.user) live r.connections c s.by_user only;
    by_device = ShowsBy-removed (λ x. x.device) live r.device_connections c s.by_device only;
  }

  Shows-missed :
      any (has_socket c.socket) live ≡ false → Shows live (unregister c.user c.device c.socket r)
  Shows-missed missing =
      subst (λ l. Shows l (unregister c.user c.device c.socket r))
        (disconnect_missing c.socket live missing)
        (Shows-removed (
          All-mono (λ x. has_socket c.socket x ≡ false) (λ x. has_socket c.socket x ≡ true → c ≡ x)
            (λ x off on. ground arith) live
            (count_zero-All (has_socket c.socket) live
              (omega (arith, count-any (has_socket c.socket) live missing)))))

typing_keeps :
    {live : List Connection} (user now : ℕ) (r : Registry)
    → Shows live r
    → Shows live (allow_typing user now r).1
unfolding allow_typing
typing_keeps user now r s = record {
  unique = s.unique;
  by_user = s.by_user;
  by_device = s.by_device;
}

pushes_keep :
    {live : List Connection} (users : List ℕ) (event : ℕ) (r : Registry)
    → Shows live r
    → Shows live (push_to_users users event r).1
unfolding push_to_users push_to_user
pushes_keep [] event r s = s
pushes_keep (user ∷ users) event r s =
    pushes_keep users event (push_to_user user event r).1
      (record { unique = s.unique; by_user = s.by_user; by_device = s.by_device })

-- What is sent and closed is no part of what is shown.
same_maps :
    {live : List Connection} {r : Registry} {emitted : List (ℕ × ℕ)} {closed : List ℕ}
    → Shows live r
    → Shows live (record r { emitted = emitted; closed = closed })
same_maps s = record { unique = s.unique; by_user = s.by_user; by_device = s.by_device }

unregistered :
    {entered : List Connection} {r : Registry} (noted : Bool) (c : Connection)
    → Shows entered r
    → any (has_socket c.socket) entered ≡ false
    → Shows entered (unregister_if noted c r)
unregistered true c s missing = Shows-missed c s missing
unregistered false c s missing = s

-- A row that fits is moved from one list to another.
count-moved :
    {A : Type 0} (p q : A → Bool) (xs : List A) (a : A)
    → find p xs ≡ some a
    → count q (keep (λ x. not (p x)) xs) + (if q a then 1 else 0) ≤ count q xs
unfolding find count keep
count-moved p q [] a e = absurd (ground arith)
count-moved p q (x ∷ xs) a e =
    ground (arith, count-moved p q xs a, count-keep-le q (λ y. not (p y)) xs)

count-changed :
    {A : Type 0} (p q : A → Bool) (f : A → A) (xs : List A)
    → count q (update p f xs) ≤ count p xs + count q xs
unfolding count update
count-changed p q f [] = omega arith
count-changed p q f (x ∷ xs) = ground (arith, count-changed p q f xs)

count-found :
    {A : Type 0} (p : A → Bool) (xs : List A) (a : A) → find p xs ≡ some a → 1 ≤ count p xs
unfolding count find
count-found p [] a e = absurd (ground arith)
count-found p (x ∷ xs) a e = ground (arith, count-found p xs a)

any-count : {A : Type 0} (p : A → Bool) (xs : List A) → count p xs ≤ 0 → any p xs ≡ false
any-count p xs h = any-All_none p xs (count_zero-All p xs h)

count-connect :
    (q : Connection → Bool) (c : Connection) (entered : List Connection)
    → count q (connect c entered) ≤ count q entered + (if q c then 1 else 0)
unfolding count
count-connect q c entered =
    elim (Bool-cases (leb max_sockets_per_user (count (is_of_user c.user) entered))) [
      | inl full ↦ rw full (omega arith)
      | inr room ↦ rw (room, count-append q entered (c ∷ [])) (omega arith)
    ]

module _ {n : ℕ} {waiting entered : List Connection} {r : Registry} (c : Connection)
    (s : Refines n waiting entered r) where
  waits_only :
      find (has_socket c.socket) waiting ≡ some c → any (has_socket c.socket) entered ≡ false
  waits_only found =
      any-count (has_socket c.socket) entered
        (omega (arith, s.once c.socket, count-found (has_socket c.socket) waiting c found))

  opens_once :
      any (has_socket c.socket) waiting ≡ false
      → any (has_socket c.socket) entered ≡ false
      → (socket : ℕ)
      → count (has_socket socket) (waiting ++ c ∷ []) + count (has_socket socket) entered ≤ 1
  unfolding count
  opens_once free fresh socket =
      rw (count-append (has_socket socket) waiting (c ∷ []))
        (elim (Bool-cases (c.socket == socket)) [
          | inl same ↦ ground (
            arith,
            count-any (has_socket socket) waiting (
                subst (λ k. any (has_socket k) waiting ≡ false) ((==_iff c.socket socket).0 same)
                  free),
            count-any (has_socket socket) entered (
                subst (λ k. any (has_socket k) entered ≡ false) ((==_iff c.socket socket).0 same)
                  fresh),
          )
          | inr other ↦ ground (arith, s.once socket)
        ])

  opens-Refines :
      c.is_open ≡ true
      → any (has_socket c.socket) waiting ≡ false
      → any (has_socket c.socket) entered ≡ false
      → Refines n (waiting ++ c ∷ []) entered r
  unfolding count
  opens-Refines open_ free fresh = record {
    shows = s.shows;
    once = λ socket. opens_once free fresh socket;
    stale = rw (count-append is_stale waiting (c ∷ []), open_) (omega (arith, s.stale));
  }

  takes-Refines :
      find (has_socket c.socket) waiting ≡ some c
      → Refines n
          (disconnect c.socket waiting)
          (connect c entered)
          (register c.user c.device c.socket r).1
  takes-Refines found = record {
    shows = Shows-register c s.shows (waits_only found);
    once = λ socket. omega (
      arith,
      s.once socket,
      count-moved (has_socket c.socket) (has_socket socket) waiting c found,
      count-connect (has_socket socket) c entered,
    );
    stale = omega (
      arith,
      s.stale,
      count-moved (has_socket c.socket) is_stale waiting c found,
      count-connect is_stale c entered,
    );
  }

  fails-Refines : Refines n (disconnect c.socket waiting) entered r
  fails-Refines = record {
    shows = s.shows;
    once = λ socket. omega (
      arith,
      s.once socket,
      count-keep-le (has_socket socket) (λ x. not (has_socket c.socket x)) waiting,
    );
    stale =
        omega (arith, s.stale, count-keep-le is_stale (λ x. not (has_socket c.socket x)) waiting);
  }

  drops-Refines :
      (noted : Bool)
      → find (has_socket c.socket) waiting ≡ some c
      → Refines
          (suc n)
          (update (has_socket c.socket) close waiting)
          entered
          (unregister_if noted c r)
  drops-Refines noted found = record {
    shows = unregistered noted c s.shows (waits_only found);
    once = λ socket.
        rw (count-update (has_socket socket) (has_socket c.socket) close (λ x. refl) waiting)
          (s.once socket);
    stale = omega (
      arith,
      s.stale,
      s.once c.socket,
      count-changed (has_socket c.socket) is_stale close waiting,
    );
  }

  disconnects-Refines :
      find (has_socket c.socket) entered ≡ some c
      → Refines n waiting (disconnect c.socket entered) (unregister c.user c.device c.socket r)
  disconnects-Refines found = record {
    shows =
        Shows-removed c s.shows
          (found-only (has_socket c.socket) entered c found (s.shows.unique c.socket));
    once = λ socket. omega (
      arith,
      s.once socket,
      count-keep-le (has_socket socket) (λ x. not (has_socket c.socket x)) entered,
    );
    stale =
        omega (arith, s.stale, count-keep-le is_stale (λ x. not (has_socket c.socket x)) entered);
  }

Shows-Refines :
    {n : ℕ} {waiting entered : List Connection} {r next : Registry}
    → Refines n waiting entered r
    → Shows entered next
    → Refines n waiting entered next
Shows-Refines s shows = record { shows = shows; once = s.once; stale = s.stale }

-- Whatever the gateway has done, the two maps of the registry show, by user and by device, exactly
-- the sockets of the connections that were taken and not unregistered since, in the order in which
-- they were taken, each once. These need not be open: a socket that closes while its handler waits is
-- taken all the same. But no more of them are closed than sockets have closed so, and if none has,
-- every socket that the registry shows is open.
pub Runs-Refines :
    {n : ℕ} {waiting entered : List Connection} {r : Registry}
    → Runs n waiting entered r
    → Refines n waiting entered r
unfolding count keep push_to_device disconnect_device disconnect_user
Runs-Refines begins = record {
  shows = record {
    unique = λ socket. omega arith;
    by_user = λ user. refl;
    by_device = λ device. refl;
  };
  once = λ socket. omega arith;
  stale = omega arith;
}
Runs-Refines (opens c run open_ free fresh) = opens-Refines c (Runs-Refines run) open_ free fresh
Runs-Refines (takes c run found) = takes-Refines c (Runs-Refines run) found
Runs-Refines (fails c run found) = fails-Refines c (Runs-Refines run)
Runs-Refines (drops noted c run found open_) = drops-Refines c (Runs-Refines run) noted found
Runs-Refines (disconnects c run found open_) = disconnects-Refines c (Runs-Refines run) found
Runs-Refines (misses noted c run away missing) =
    let s = Runs-Refines run in Shows-Refines s (unregistered noted c s.shows missing)
Runs-Refines (types user now run) =
    let s = Runs-Refines run in Shows-Refines s (typing_keeps user now _ s.shows)
Runs-Refines (pushes users event run) =
    let s = Runs-Refines run in Shows-Refines s (pushes_keep users event _ s.shows)
Runs-Refines (pushes_to_device device event run) =
    let s = Runs-Refines run in Shows-Refines s (same_maps s.shows)
Runs-Refines (closes_device device run) =
    let s = Runs-Refines run in Shows-Refines s (same_maps s.shows)
Runs-Refines (closes_user user run) =
    let s = Runs-Refines run in Shows-Refines s (same_maps s.shows)
