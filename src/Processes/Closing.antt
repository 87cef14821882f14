-- ===== src/Processes/Closing.antt =====
-- What a process has opened, it closes once.
use abhishek_bhat2005_reachi.Base.{Bool, true, false, List, [], ◌∷◌}
use abhishek_bhat2005_reachi.Processes.{Signal, Action}

-- The actions that give up a client.
abbrev pub is_mailer_closed : Action → Bool
is_mailer_closed Action.close_mailer = true
is_mailer_closed _ = false

abbrev pub is_queue_closed : Action → Bool
is_queue_closed Action.close_queue = true
is_queue_closed _ = false

abbrev pub is_database_closed : Action → Bool
is_database_closed Action.disconnect_database = true
is_database_closed _ = false

abbrev pub is_redis_closed : Action → Bool
is_redis_closed Action.quit_redis = true
is_redis_closed _ = false

abbrev pub is_signalled : List Signal → Bool
is_signalled [] = false
is_signalled (s ∷ ss) = true
