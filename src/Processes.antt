-- ===== src/Processes.antt =====
-- apps/backend/src/worker.ts and server.ts: what a process opens and closes. A run is the list of its
-- actions; the actions of a shutdown are listed at its signal, where the code waits for each.
pub mod Closing
mod Examples
use abhishek_bhat2005_reachi.Base.{
  ℕ, Bool, true, false, not, ◌&&◌, List, [], ◌∷◌, ◌++◌, if◌then◌else◌,
}

pub data Signal : Type 0 where
  interrupt terminate : Signal

pub data Action : Type 0 where
  open_clients connect seed_limits reconcile start_worker listen : Action
  close_worker close_server close_mailer close_queue disconnect_database quit_redis : Action
  fail_with_code_one : Action

-- `Promise.allSettled` over the three clients.
abbrev pub close_clients : List Action
close_clients = close_queue ∷ disconnect_database ∷ quit_redis ∷ []

-- The listeners of `process.once` that are left, and `shutdownStarted`.
pub record Listeners : Type 0 where
  pub on_interrupt : Bool
  pub on_terminate : Bool
  pub shutdown_started : Bool

abbrev pub all_listeners : Listeners
all_listeners = record { on_interrupt = true; on_terminate = true; shutdown_started = false }

abbrev pub is_armed : Signal → Listeners → Bool
is_armed interrupt l = l.on_interrupt
is_armed terminate l = l.on_terminate

abbrev pub disarm : Signal → Listeners → Listeners
disarm interrupt l = record l { on_interrupt = false; shutdown_started = true }
disarm terminate l = record l { on_terminate = false; shutdown_started = true }

-- The signals that come to a process, each after what the one before it has started is done, with what
-- its shutdown does. A signal without a listener ends the process at once.
unfoldable pub signals : (shutdown : List Action) → List Signal → Listeners → List Action
signals shutdown [] l = []
signals shutdown (s ∷ ss) l =
    let rest = signals shutdown ss (disarm s l) in
    if not (is_armed s l) then [] else if l.shutdown_started then rest else shutdown ++ rest

-- `startWorker`, by whether the configuration loads and each step of the start succeeds.
pub record Start : Type 0 where
  pub configured : Bool
  pub connects : Bool
  pub seeds : Bool
  pub reconciles : Bool

abbrev pub start_failed : List Action
start_failed = close_mailer ∷ close_clients ++ fail_with_code_one ∷ []

abbrev pub worker_shutdown : List Action
worker_shutdown = close_worker ∷ close_mailer ∷ close_clients

unfoldable pub run_worker : Start → List Signal → List Action
run_worker start ss =
    let running = signals worker_shutdown ss all_listeners in
    if not start.configured
    then fail_with_code_one ∷ []
    else if not start.connects
    then open_clients ∷ connect ∷ start_failed
    else if not start.seeds
    then open_clients ∷ connect ∷ seed_limits ∷ start_failed
    else if not start.reconciles
    then open_clients ∷ connect ∷ seed_limits ∷ reconcile ∷ start_failed
    else open_clients ∷ connect ∷ seed_limits ∷ reconcile ∷ start_worker ∷ running

-- The server, once its configuration is loaded.
unfoldable pub run_server : List Signal → List Action
run_server ss = open_clients ∷ listen ∷ signals (close_server ∷ close_clients) ss all_listeners
