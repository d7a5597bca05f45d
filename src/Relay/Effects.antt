-- ===== src/Relay/Effects.antt =====
-- What `relay` does, as values.
use rsync_proxy.Base.{false, true, Bool, ℕ, Bytes}

pub data LogEvent : Type 0 where
  lists_modules : LogEvent
  nonexistent queue_full starts_queueing starts : Bytes → LogEvent
  finishes : Bytes → ℕ → ℕ → LogEvent

pub data Effect : Type 0 where
  to_client to_upstream set_module set_upstream dialled count_queue_full count_dial_error :
      Bytes → Effect
  logged : LogEvent → Effect
  conn_stored conn_deleted acquire_slot release_slot : ℕ → Effect
  close_client close_upstream close_read_client close_read_upstream clear_deadlines
        count_unknown_module :
      Effect
  count_completed : ℕ → ℕ → Effect
  count_module : Bytes → Bytes → ℕ → ℕ → Effect

-- The effects that reach an upstream, or come after it was reached.
abbrev pub touches_upstream : Effect → Bool
touches_upstream (to_upstream b) = true
touches_upstream (dialled a) = true
touches_upstream close_upstream = true
touches_upstream close_read_upstream = true
touches_upstream close_read_client = true
touches_upstream clear_deadlines = true
touches_upstream (count_dial_error u) = true
touches_upstream (count_completed n m) = true
touches_upstream (count_module m u n k) = true
touches_upstream e = false

-- Those that take a place in a queue and give it back.
abbrev pub is_slot : Effect → Bool
is_slot (acquire_slot p) = true
is_slot (release_slot p) = true
is_slot e = false

-- Those that count a finished transfer.
abbrev pub is_count : Effect → Bool
is_count (count_completed n m) = true
is_count (count_module m u n k) = true
is_count e = false

-- Those that enter a connection among the known ones and take it out.
abbrev pub is_entry : Effect → Bool
is_entry (conn_stored i) = true
is_entry (conn_deleted i) = true
is_entry e = false
