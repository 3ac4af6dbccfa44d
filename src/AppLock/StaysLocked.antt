-- ===== src/AppLock/StaysLocked.antt =====
-- Every sequence of events of the lock's state machine that has no right secret in it.
use pookie_chat.Prelude.{All, ℕ, ◌≡◌, refl, Bool, true, false, Option, some, List, [], ◌∷◌, arith}
use pookie_chat.Domain.Text.{Text}
use pookie_chat.AppLock.{
  handle_departure, handle_return, handle_user_activity, check_inactivity, attempt_unlock, lock_now,
  locked, Machine, Options,
}
use pookie_chat.AppLock.Gate.{
  happen, shows_children, page_after, visit, visit_all, Happening, loads, departs, returns, is_used,
  is_checked, rings, logs_out, locks, tries, Gate,
}
use pookie_chat.AppLock.Steps.{
  IsArmed, departure-IsLockedFor, return-IsLockedFor, activity-IsLockedFor, inactivity-IsLockedFor,
  timer-IsLockedFor, unlock-IsLockedFor, logout-IsLockedFor, lock_now-IsLockedFor, init-IsLockedFor,
  IsLockedFor,
}

-- Everything but the secret of the user.
abbrev pub IsNoKey : Options → Option Text → Happening → Type 0
IsNoKey o verifier (tries pin now) = o.check_local_secret pin verifier ≡ false
IsNoKey o verifier _ = Unit {0}

-- The user's lock is on and set, and no protected page is shown while the machine is the user's.
pub record IsClosedFor (user : ℕ) (verifier : Option Text) (g : Gate) : Type 0 where
  pub set : IsArmed verifier (g.machine.storage user)
  pub hidden : g.is_protected ≡ true → g.machine.user_id ≡ some user → shows_children g ≡ false

shown_unless : (g : Gate) → shows_children g ≡ false → g.machine.state ≡ locked
unfolding shows_children
shown_unless g h = ground arith

module _ (o : Options) (user : ℕ) (verifier : Option Text) where
  happen-IsLockedFor :
      (h : Happening) (guarded : Bool) (m : Machine)
      → IsNoKey o verifier h
      → IsLockedFor user verifier guarded m
      → IsLockedFor user verifier (page_after h guarded) (happen o h m)
  unfolding happen handle_departure handle_return handle_user_activity check_inactivity
      attempt_unlock lock_now
  happen-IsLockedFor (loads is_protected who now) guarded m k v =
      init-IsLockedFor o user verifier is_protected who now m v.set
  happen-IsLockedFor (departs now) guarded m k v =
      departure-IsLockedFor o user verifier guarded m.state m.user_id now m refl v
  happen-IsLockedFor (returns now) guarded m k v =
      return-IsLockedFor o user verifier guarded m.state now m refl v
  happen-IsLockedFor (is_used now) guarded m k v =
      activity-IsLockedFor o user verifier guarded m.state m.user_id now m v
  happen-IsLockedFor (is_checked now) guarded m k v =
      inactivity-IsLockedFor o user verifier guarded m.state now m v
  happen-IsLockedFor rings guarded m k v = timer-IsLockedFor o user verifier guarded m v
  happen-IsLockedFor logs_out guarded m k v = logout-IsLockedFor o user verifier guarded m v
  happen-IsLockedFor locks guarded m k v =
      lock_now-IsLockedFor o user verifier guarded m.user_id (record m { timer = false })
        (record { set = v.set; shut = v.shut })
  happen-IsLockedFor (tries pin now) guarded m k v =
      unlock-IsLockedFor o user verifier guarded m.state m.user_id pin now m refl k v

  visit_all-IsLockedFor :
      (hs : List Happening) (g : Gate)
      → All (IsNoKey o verifier) hs
      → IsLockedFor user verifier g.is_protected g.machine
      → IsLockedFor user verifier (visit_all o hs g).is_protected (visit_all o hs g).machine
  unfolding visit_all visit
  visit_all-IsLockedFor [] g k v = v
  visit_all-IsLockedFor (h ∷ hs) g (k, ks) v =
      visit_all-IsLockedFor hs (visit o h g) ks (happen-IsLockedFor h g.is_protected g.machine k v)

  IsClosedFor-IsLockedFor :
      (g : Gate) → IsClosedFor user verifier g → IsLockedFor user verifier g.is_protected g.machine
  IsClosedFor-IsLockedFor g v = record {
    set = v.set;
    shut = λ on e. shown_unless g (v.hidden on e);
  }

  IsLockedFor-IsClosedFor :
      (g : Gate) → IsLockedFor user verifier g.is_protected g.machine → IsClosedFor user verifier g
  unfolding shows_children
  IsLockedFor-IsClosedFor g v = record { set = v.set; hidden = λ on e. rw (on, v.shut on e) refl }

  -- A lock that is set stays set: whatever happens to the application, loads of pages, logouts and
  -- the logins of others included, as long as nobody enters the user's secret, the gate renders no
  -- protected page while the machine is the user's, and the lock is set in the storage. What happens
  -- are the events of `Happening`: a change of the lock's settings and the setting of a first secret
  -- are not among them.
  pub visit_all-IsClosedFor :
      (hs : List Happening) (g : Gate)
      → All (IsNoKey o verifier) hs
      → IsClosedFor user verifier g
      → IsClosedFor user verifier (visit_all o hs g)
  visit_all-IsClosedFor hs g keys v =
      IsLockedFor-IsClosedFor (visit_all o hs g)
        (visit_all-IsLockedFor hs g keys (IsClosedFor-IsLockedFor g v))
