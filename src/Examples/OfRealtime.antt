-- ===== src/Examples/OfRealtime.antt =====
-- The theorems on the registry of sockets at concrete inputs.
use pookie_chat.Prelude.{
  find, keep, any, count, update, refl, true, false, none, List, [], ◌∷◌, arith,
}
use pookie_chat.Realtime.Live.{
  no_connections, close, Connection, Runs, begins, opens, takes, drops, disconnects, pushes,
  Refines,
}
use pookie_chat.Realtime.Live.Refinement.{Runs-Refines}
use pookie_chat.Realtime.{register, unregister, Registry}
use pookie_chat.Realtime.Capacity.{
  call_all, IsCapped, call_all-IsCapped, Call, registers, unregisters, pushes,
}

abbrev empty_registry : Registry
empty_registry = record {
  connections = λ k. [];
  device_connections = λ k. [];
  typing_windows = λ k. none;
  emitted = [];
  closed = [];
}

abbrev some_calls : List Call
some_calls = registers 1 2 3 ∷ registers 1 2 4 ∷ pushes (1 ∷ 5 ∷ []) 7 ∷ unregisters 1 2 3 ∷ []

call_all-IsCapped_example : IsCapped (call_all some_calls empty_registry).connections
call_all-IsCapped_example = call_all-IsCapped some_calls empty_registry (λ user. (omega arith, tt))

-- User 1 opens two tabs on two devices. The second one is closed while its handler waits, and is
-- registered after that; then the first one is closed too.
abbrev first_tab : Connection
first_tab = record { user = 1; device = 5; socket = 100; is_open = true }

abbrev second_tab : Connection
second_tab = record { user = 1; device = 6; socket = 101; is_open = true }

abbrev registry_of_tabs : Registry
registry_of_tabs = unregister 1 5 100 (register 1 6 101 (register 1 5 100 no_connections).1).1

two_tabs : Runs 1 [] (close second_tab ∷ []) registry_of_tabs
unfolding any find count keep update
two_tabs =
    disconnects first_tab
      (takes (close second_tab)
        (drops false second_tab
          (opens second_tab (takes first_tab (opens first_tab begins refl refl refl) refl) refl refl
            refl)
          refl refl)
        refl)
      refl refl

Runs-Refines_example : Refines 1 [] (close second_tab ∷ []) registry_of_tabs
Runs-Refines_example = Runs-Refines two_tabs
