-- ===== src/AppLock/Away.antt =====
-- lifecycle.ts: a departure, what happens while the user is away, the departure timer with it, and the
-- return, where the lock is immediate.
use pookie_chat.Prelude.{
  ltb, leb, if◌then◌else◌, ==_refl, Bool-cases, any, All, ℕ, ◌+◌, ◌≡◌, refl, inl, inr, Bool, true,
  false, ◌||◌, some, List, [], ◌∷◌, arith,
}
use pookie_chat.AppLock.{
  commit_lock, depart_at, handle_departure, timer_fires, handle_return, handle_user_activity,
  check_inactivity, lock_now, unlocked, pending_departure, locked, Machine, Options,
}
use pookie_chat.AppLock.Gate.{
  happen, happen_all, Happening, loads, departs, returns, is_used, is_checked, rings, logs_out,
  locks, tries,
}

-- What may happen while the user is away: further signs of departure, activity, the check for
-- inactivity, the departure timer, and a lock from another tab.
abbrev pub is_away : Happening → Bool
is_away (departs now) = true
is_away (is_used now) = true
is_away (is_checked now) = true
is_away rings = true
is_away locks = true
is_away _ = false

-- What ends the grace period early: the timer, and a lock from another tab.
abbrev pub ends_grace : Happening → Bool
ends_grace rings = true
ends_grace locks = true
ends_grace _ = false

abbrev pub IsAway : Happening → Type 0
IsAway h = is_away h ≡ true

-- The user has left, and nothing has been decided.
record IsPending (user : ℕ) (m : Machine) : Type 0 where
  pending : m.state ≡ pending_departure
  who : m.user_id ≡ some user
  runs : m.timer ≡ true

record IsShut (user : ℕ) (m : Machine) : Type 0 where
  shut : m.state ≡ locked
  who : m.user_id ≡ some user
  stored_too : (m.storage user).is_locked ≡ true

module _ (o : Options) (user : ℕ) where
  -- Until the grace period ends nothing that happens changes the machine.
  pending_waits :
      (h : Happening) (m : Machine)
      → IsAway h
      → ends_grace h ≡ false
      → m.state ≡ pending_departure
      → happen o h m ≡ m
  unfolding happen handle_departure handle_user_activity check_inactivity
  pending_waits (departs now) m a e p = rw p refl
  pending_waits (is_used now) m a e p = rw p refl
  pending_waits (is_checked now) m a e p = rw p refl
  pending_waits rings m a e p = absurd (ground arith)
  pending_waits locks m a e p = absurd (ground arith)
  pending_waits (loads is_protected who now) m a e p = absurd (ground arith)
  pending_waits (returns now) m a e p = absurd (ground arith)
  pending_waits logs_out m a e p = absurd (ground arith)
  pending_waits (tries pin now) m a e p = absurd (ground arith)

  commit-IsShut : (m : Machine) → m.user_id ≡ some user → IsShut user (commit_lock user m)
  commit-IsShut m who = record { shut = refl; who = who; stored_too = rw (==_refl user) refl }

  pending-IsShut :
      (h : Happening) (m : Machine)
      → ends_grace h ≡ true
      → IsPending user m
      → IsShut user (happen o h m)
  unfolding happen timer_fires lock_now
  pending-IsShut rings m e p =
      simp (p.runs, p.pending, p.who)
        (commit-IsShut (record m { state = pending_departure; user_id = some user; timer = false })
          refl)
  pending-IsShut locks m e p =
      simp (p.who) (commit-IsShut (record m { user_id = some user; timer = false }) refl)
  pending-IsShut (departs now) m e p = absurd (ground arith)
  pending-IsShut (is_used now) m e p = absurd (ground arith)
  pending-IsShut (is_checked now) m e p = absurd (ground arith)
  pending-IsShut (loads is_protected who now) m e p = absurd (ground arith)
  pending-IsShut (returns now) m e p = absurd (ground arith)
  pending-IsShut logs_out m e p = absurd (ground arith)
  pending-IsShut (tries pin now) m e p = absurd (ground arith)

  -- A lock that has closed stays closed until the return.
  happen-IsShut :
      (h : Happening) (m : Machine) → IsAway h → IsShut user m → IsShut user (happen o h m)
  unfolding happen handle_departure handle_user_activity check_inactivity timer_fires lock_now
  happen-IsShut rings m a s = elim (Bool-cases m.timer) [
    | inl runs ↦
        simp (runs, s.shut) (record { shut = refl; who = s.who; stored_too = s.stored_too })
    | inr stopped ↦ simp stopped s
  ]
  happen-IsShut locks m a s =
      simp (s.who) (commit-IsShut (record m { user_id = some user; timer = false }) refl)
  happen-IsShut (departs now) m a s = simp (s.shut) s
  happen-IsShut (is_used now) m a s = simp (s.shut) s
  happen-IsShut (is_checked now) m a s = simp (s.shut) s
  happen-IsShut (loads is_protected who now) m a s = absurd (ground arith)
  happen-IsShut (returns now) m a s = absurd (ground arith)
  happen-IsShut logs_out m a s = absurd (ground arith)
  happen-IsShut (tries pin now) m a s = absurd (ground arith)

  happen_all-IsShut :
      (hs : List Happening) (m : Machine)
      → All IsAway hs
      → IsShut user m
      → IsShut user (happen_all o hs m)
  unfolding happen_all
  happen_all-IsShut [] m a s = s
  happen_all-IsShut (h ∷ hs) m (a, rest) s =
      happen_all-IsShut hs (happen o h m) rest (happen-IsShut h m a s)

  -- Up to the return: the grace period was ended, or nothing has changed.
  pending_all-IsShut :
      (hs : List Happening) (m : Machine)
      → All IsAway hs
      → any ends_grace hs ≡ true
      → IsPending user m
      → IsShut user (happen_all o hs m)
  unfolding happen_all any
  pending_all-IsShut [] m a e p = absurd (ground arith)
  pending_all-IsShut (h ∷ hs) m (a, rest) e p = elim (Bool-cases (ends_grace h)) [
    | inl ended ↦ happen_all-IsShut hs (happen o h m) rest (pending-IsShut h m ended p)
    | inr waits ↦
        rw (pending_waits h m a waits p.pending)
          (pending_all-IsShut hs m rest (ground (arith, e, waits)) p)
  ]

  pending_all_waits :
      (hs : List Happening) (m : Machine)
      → All IsAway hs
      → any ends_grace hs ≡ false
      → m.state ≡ pending_departure
      → happen_all o hs m ≡ m
  unfolding happen_all any
  pending_all_waits [] m a e p = refl
  pending_all_waits (h ∷ hs) m (a, rest) e p =
      rw (pending_waits h m a (ground (arith, e)) p)
        (pending_all_waits hs m rest (ground (arith, e)) p)

  handle_return-IsShut :
      (now : ℕ) (m : Machine) → IsShut user m → IsShut user (handle_return o now m)
  unfolding handle_return
  handle_return-IsShut now m s = simp (s.shut) s

  return_late :
      (now : ℕ) (m : Machine)
      → IsPending user m
      → ltb now (m.departure_started_at + o.grace_period_ms) ≡ false
      → IsShut user (handle_return o now m)
  unfolding handle_return
  return_late now m p late =
      simp (p.pending, late, p.who)
        (commit-IsShut (record m { state = pending_departure; user_id = some user; timer = false })
          refl)

  return_soon :
      (now : ℕ) (m : Machine)
      → IsPending user m
      → ltb now (m.departure_started_at + o.grace_period_ms) ≡ true
      → handle_return o now m ≡ record m { state = unlocked; timer = false }
  unfolding handle_return
  return_soon now m p soon = simp (p.pending, soon) refl

-- Whether the application is to be locked when the user is back: the timer has rung or another tab
-- has locked it, or the grace period is over.
abbrev pub is_to_lock : Options → (left back : ℕ) → List Happening → Bool
is_to_lock o left back away = any ends_grace away || leb (left + o.grace_period_ms) back

waited_pending :
    (o : Options) (left back : ℕ) (away : List Happening) (m : Machine) (user : ℕ)
    → All IsAway away
    → is_to_lock o left back away ≡ true
    → m.departure_started_at ≡ left
    → IsPending user m
    → IsShut user (handle_return o back (happen_all o away m))
waited_pending o left back away m user a lock at_left p = elim (Bool-cases (any ends_grace away)) [
  | inl ended ↦ handle_return-IsShut o user back _ (pending_all-IsShut o user away m a ended p)
  | inr waits ↦
      rw (pending_all_waits o user away m a waits p.pending)
        (return_late o user back m p (ground (arith, lock, waits, at_left)))
]

returned_open :
    (o : Options) (left back : ℕ) (away : List Happening) (m : Machine) (user : ℕ)
    → All IsAway away
    → is_to_lock o left back away ≡ false
    → m.departure_started_at ≡ left
    → IsPending user m
    → handle_return o back (happen_all o away m) ≡ record m { state = unlocked; timer = false }
returned_open o left back away m user a lock at_left p =
    let waits : any ends_grace away ≡ false = ground (arith, lock) in
    rw (pending_all_waits o user away m a waits p.pending)
      (return_soon o user back m p (ground (arith, lock, waits, at_left)))

-- Where the lock is immediate, a user leaves and returns, whatever signs of departure and activity,
-- checks for inactivity, rings of the departure timer and locks from other tabs come meanwhile. If
-- the timer has rung, or another tab has locked, the application is locked when the user is back, in
-- the storage too, whenever that is; and so it is if the user is back after the grace period. In every
-- other case it is open, and the lock in the storage is as it was.
pub depart-return :
    (o : Options) (left back : ℕ) (away : List Happening) (m : Machine) (user : ℕ)
    → m.state ≡ unlocked
    → m.user_id ≡ some user
    → (m.storage user).timeout_seconds ≡ 0
    → All IsAway away
    → let returned : Machine = handle_return o back (happen_all o away (handle_departure left m)) in
      (returned.state ≡ (if is_to_lock o left back away then locked else unlocked))
      × ((returned.storage user).is_locked
          ≡ (if is_to_lock o left back away then true else (m.storage user).is_locked))
unfolding handle_departure
depart-return o left back away m user open_ who immediate a =
    let left_at : handle_departure left m ≡ depart_at left m = simp (open_, who, immediate) refl in
    let p : IsPending user (depart_at left m) = record { pending = refl; who = who; runs = refl } in
    elim (Bool-cases (is_to_lock o left back away)) [
      | inl lock ↦
          let s : IsShut user (handle_return o back (happen_all o away (depart_at left m))) =
            waited_pending o left back away (depart_at left m) user a lock refl p in
          rw (left_at, lock) (s.shut, s.stored_too)
      | inr waits ↦
          rw (left_at, waits, returned_open o left back away (depart_at left m) user a waits refl p)
            (refl, refl)
    ]
