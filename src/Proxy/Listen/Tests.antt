-- ===== src/Proxy/Listen/Tests.antt =====
-- Two connections: for the first malloc has no memory, the second is served to its end.
use os_5_sem.Base.{◌≡◌, refl, true, none, some, List, [], ◌∷◌}
use os_5_sem.Proxy.Client.{Network, handle_client}
use os_5_sem.Proxy.Listen.{Setup, Round, Event, accepting, reading, ending, serves, main}
use os_5_sem.Proxy.Listen.Accounts.{AccountedMain, main-Accounted}

abbrev ready : Setup
ready = record { socket = some 3; setsockopt = true; bind = true; listen = true }

-- The client closes its side at once.
abbrev silent : Network
silent = record {
  request = some [];
  junk = [];
  lookup = λ name. none;
  socket = true;
  connect = λ a. true;
  write_remote = λ i. 1;
  answer = [];
  write_client = λ i. 1;
}

abbrev no_memory : Round
no_memory = record { accept = some 4; malloc = none; create = true }

abbrev served : Round
served = record { accept = some 5; malloc = some 64; create = true }

abbrev events : List Event
events = ending 5 silent ∷ reading 64 ∷ accepting served ∷ accepting no_memory ∷ []

-- The socket of the first connection stays open.
one_forgotten :
    main ready events
    ≡ serves (record { listening = 3; opened = 4 ∷ 3 ∷ []; heap = []; started = []; serving = [] })
unfolding main handle_client
one_forgotten = refl

main-Accounted_example : AccountedMain events (main ready events)
unfolding handle_client
main-Accounted_example = main-Accounted ready events (refl, tt)
