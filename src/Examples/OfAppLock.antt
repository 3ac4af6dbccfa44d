-- ===== src/Examples/OfAppLock.antt =====
-- The theorems on the lock of the application at concrete inputs.
use pookie_chat.Prelude.{
  ◌==◌, any, ℕ, ◌≡◌, refl, Bool, true, false, Option, none, some, List, [], ◌∷◌,
}
use pookie_chat.Domain.Text.{Text}
use pookie_chat.AppLock.{
  handle_departure, handle_return, unlocked, locked, Settings, Machine, Options,
}
use pookie_chat.AppLock.Gate.{
  happen_all, shows_children, visit_all, Happening, loads, departs, returns, is_used, rings,
  logs_out, tries, Gate,
}
use pookie_chat.AppLock.StaysLocked.{visit_all-IsClosedFor, IsClosedFor}
use pookie_chat.AppLock.Away.{depart-return}

abbrev is_pin : Text → Option Text → Bool
is_pin pin none = false
is_pin pin (some (k ∷ ks)) = is_first pin k
  where
    is_first : Text → ℕ → Bool
    is_first [] k = false
    is_first (p ∷ ps) k = p == k
is_pin pin (some []) = false

abbrev plain_options : Options
plain_options = record { grace_period_ms = 1500; check_local_secret = is_pin }

abbrev locked_settings : Settings
locked_settings = record {
  is_enabled = true;
  is_locked = true;
  timeout_seconds = 0;
  verifier = some (49 ∷ []);
  last_active_at = 1;
}

abbrev locked_machine : Machine
locked_machine = record {
  state = locked;
  user_id = some 1;
  departure_started_at = 0;
  timer = false;
  storage = λ v. locked_settings;
}

-- A return, a wrong secret, a logout, the login of user 2, and that of user 1.
abbrev a_day : List Happening
a_day =
    returns 5 ∷ tries (50 ∷ []) 6 ∷ logs_out ∷ loads true (some 2) 7 ∷ loads true (some 1) 8 ∷ []

-- A protected page.
abbrev closed_gate : Gate
closed_gate = record { machine = locked_machine; is_protected = true }

closed : IsClosedFor 1 (some (49 ∷ [])) closed_gate
unfolding shows_children
closed = record { set = (refl, refl, refl); hidden = λ on e. refl }

visit_all-IsClosedFor_example :
    IsClosedFor 1 (some (49 ∷ [])) (visit_all plain_options a_day closed_gate)
visit_all-IsClosedFor_example =
    visit_all-IsClosedFor plain_options 1 (some (49 ∷ [])) a_day closed_gate
      (tt, (refl, (tt, (tt, (tt, tt))))) closed

abbrev open_machine : Machine
open_machine = record {
  state = unlocked;
  user_id = some 1;
  departure_started_at = 0;
  timer = false;
  storage = λ v. record locked_settings { is_locked = false };
}

-- The window loses its focus as well, a key is pressed, and the timer rings.
abbrev while_away : List Happening
while_away = departs 1100 ∷ is_used 1200 ∷ rings ∷ []

depart-return_example :
    let returned : Machine =
      handle_return plain_options 9000
        (happen_all plain_options while_away (handle_departure 1000 open_machine)) in
    (returned.state ≡ locked) × ((returned.storage 1).is_locked ≡ true)
unfolding any
depart-return_example =
    depart-return plain_options 1000 9000 while_away open_machine 1 refl refl refl
      (refl, (refl, (refl, tt)))
