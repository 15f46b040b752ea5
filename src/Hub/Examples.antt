-- ===== src/Hub/Examples.antt =====
-- Two clients, a message that one of them takes, one that leaves twice, and the end.
use backend_golang_task.Prelude.{refl, true, ℕ, ◌≢◌, none, some, false, ◌≡◌, ◌++◌, List, [], ◌∷◌}
use backend_golang_task.Hub.{
  Hub, has, new_channel, Turn, receives, writes, registers, unregisters, broadcasts, stops, new_hub,
  run,
}
use backend_golang_task.Hub.Messages.{takes_all, hears_all, run_messages}
use backend_golang_task.Hub.Safety.{run_panics}

abbrev turns : List (Turn ℕ)
turns =
    receives registers
    ∷ receives registers
    ∷ receives (broadcasts 9)
    ∷ writes 1
    ∷ receives (unregisters 0)
    ∷ receives (unregisters 0)
    ∷ receives (broadcasts 8)
    ∷ receives stops
    ∷ writes 1
    ∷ []

run_panics_example : run turns new_hub ≢ none
run_panics_example = run_panics turns

abbrev two_clients : Hub ℕ
two_clients = record {
  clients = 1 ∷ 0 ∷ [];
  channels = λ _. new_channel;
  connected = 2;
  done = false;
}

connects : run (receives registers ∷ receives registers ∷ []) new_hub ≡ some two_clients
unfolding run
connects = refl

abbrev later : List (Turn ℕ)
later = receives (broadcasts 9) ∷ writes 1 ∷ receives (unregisters 0) ∷ receives (broadcasts 8) ∷ []

abbrev final : Hub ℕ
final = elim (run later two_clients) [ none ↦ two_clients | some h ↦ h ]

ends : run later two_clients ≡ some final
unfolding run
ends = refl

stays : has 1 final.clients ≡ true
unfolding run
stays = refl

run_messages_example :
    takes_all 1 later two_clients ++ (final.channels 1).buffer
    ≡ (two_clients.channels 1).buffer ++ hears_all later two_clients
run_messages_example =
    run_messages (receives registers ∷ receives registers ∷ []) later 1 connects refl ends stays
