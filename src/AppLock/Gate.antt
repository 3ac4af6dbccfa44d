-- ===== src/AppLock/Gate.antt =====
-- apps/web/lib/applock/AppLockGate.tsx: what happens to the state machine, and when the page is shown.
use pookie_chat.Prelude.{ℕ, Bool, true, false, not, ◌||◌, Option, List, [], ◌∷◌}
use pookie_chat.Domain.Text.{Text}
use pookie_chat.AppLock.{
  init, handle_departure, timer_fires, handle_return, handle_user_activity, check_inactivity,
  attempt_unlock, handle_logout, lock_now, locked, Machine, Options,
}

-- What happens to the application, each event at its instant.
pub data Happening : Type 0 where
  loads : (is_protected : Bool) (user : Option ℕ) (now : ℕ) → Happening
  departs returns is_used is_checked : (now : ℕ) → Happening
  rings logs_out locks : Happening
  tries : (pin : Text) (now : ℕ) → Happening

unfoldable pub happen : Options → Happening → Machine → Machine
happen o (loads is_protected user now) m = init o is_protected user now m
happen o (departs now) m = handle_departure now m
happen o (returns now) m = handle_return o now m
happen o (is_used now) m = handle_user_activity now m
happen o (is_checked now) m = check_inactivity now m
happen o rings m = timer_fires m
happen o logs_out m = handle_logout m
happen o locks m = lock_now m
happen o (tries pin now) m = (attempt_unlock o pin now m).1

unfoldable pub happen_all : Options → List Happening → Machine → Machine
happen_all o [] m = m
happen_all o (h ∷ hs) m = happen_all o hs (happen o h m)

-- The gate: the machine, and whether the page that it was last loaded for is protected. While a load
-- runs the gate shows nothing; what it sets up is there when it ends.
pub record Gate : Type 0 where
  pub machine : Machine
  pub is_protected : Bool

-- Whether the gate renders the page (`children`).
unfoldable pub shows_children : Gate → Bool
shows_children g = not g.is_protected || elim g.machine.state [ locked ↦ false | _ ↦ true ]

abbrev pub page_after : Happening → Bool → Bool
page_after (loads is_protected user now) before = is_protected
page_after _ before = before

unfoldable pub visit : Options → Happening → Gate → Gate
visit o h g = record { machine = happen o h g.machine; is_protected = page_after h g.is_protected }

unfoldable pub visit_all : Options → List Happening → Gate → Gate
visit_all o [] g = g
visit_all o (h ∷ hs) g = visit_all o hs (visit o h g)
