-- ===== src/Tests/CounterRuns.antt =====
-- Counters, metrics and requests at concrete states.
use rsync_proxy.Base.{ℕ, ◌%◌, ◌≡◌, sym, ◌∙◌, ◌⊎◌, List, [], ◌∷◌, codes}
use rsync_proxy.Counters.{ConnInfo, no_counters}
use rsync_proxy.Counters.Totals.{
  Event, record_all, Merge, both_end, from_left, from_right, Run, events, Interleaved, no_runs,
  one_more, Ended, totals_agree,
}
use rsync_proxy.Counters.Fields.{sum_of, width}
use rsync_proxy.Handling.{Conn, handle_conn, next_index}
use rsync_proxy.Handling.Restores.{Restored, handle_conn_restores}
use rsync_proxy.Relay.Script.{blocked}
use rsync_proxy.Relay.Served.{session}
use rsync_proxy.Tests.RelayRuns.{
  at_once, asks_foo, not_reached, open_setting, hello, foo_line, serves,
}

-- One of each in turn.
weave : List Event → List Event → List Event
weave [] ys = ys
weave (x ∷ xs) [] = x ∷ weave xs []
weave (x ∷ xs) (y ∷ ys) = x ∷ y ∷ weave xs ys

weave-Merge : (xs ys : List Event) → Merge xs ys (weave xs ys)
unfolding weave
weave-Merge [] [] = both_end
weave-Merge [] (y ∷ ys) = from_right (weave-Merge [] ys)
weave-Merge (x ∷ xs) [] = from_left (weave-Merge xs [])
weave-Merge (x ∷ xs) (y ∷ ys) = from_left (from_right (weave-Merge xs ys))

abbrev pub info : ℕ → ConnInfo
info index = record {
  index = index;
  local_addr = codes "10.0.0.9:873";
  remote_addr = codes "203.0.113.7:50000";
  connected_at = 1_700_000_000;
  module_name = [];
  upstream = [];
  sent_bytes = 0;
  received_bytes = 0;
}

-- A client that is served, and one whose upstream cannot be reached.
abbrev served_run : Run
served_run = record {
  info = info 1;
  setting = open_setting;
  session = session (hello ∷ foo_line ∷ []) (hello ∷ []) [];
}

abbrev failed_run : Run
failed_run = record { info = info 2; setting = at_once; session = asks_foo }

served_run-Ended : Ended served_run
served_run-Ended e = absurd (cc (sym e ∙ serves))

failed_run-Ended : Ended failed_run
failed_run-Ended e = absurd (cc (sym e ∙ not_reached))

both_events : List Event
unfolding weave
both_events = weave (events served_run) (weave (events failed_run) [])

both-Interleaved : Interleaved (served_run ∷ failed_run ∷ []) both_events
unfolding both_events
both-Interleaved =
    one_more served_run (one_more failed_run no_runs (weave-Merge (events failed_run) []))
      (weave-Merge (events served_run) (weave (events failed_run) []))

totals_agree_example :
    ((record_all both_events no_counters).completed_conn_count % width
      ≡ sum_of (λ m. m.completed) (record_all both_events no_counters).module_counters % width)
    × ((record_all both_events no_counters).sent_bytes_total % width
        ≡ sum_of (λ m. m.sent_bytes) (record_all both_events no_counters).module_counters % width)
    × ((record_all both_events no_counters).recv_bytes_total % width
        ≡ sum_of (λ m. m.recv_bytes) (record_all both_events no_counters).module_counters % width)
totals_agree_example =
    totals_agree (served_run ∷ failed_run ∷ []) both_events
      (served_run-Ended, (failed_run-Ended, tt)) both-Interleaved

abbrev conn : Conn
conn = record {
  local_addr = codes "10.0.0.9:873";
  remote_addr = codes "203.0.113.7:50000";
  connected_at = 1_700_000_000;
}

handle_conn_restores_example :
    ((handle_conn conn at_once asks_foo no_counters).0 ≡ blocked)
    ⊎ Restored
        (next_index no_counters)
        no_counters
        (handle_conn conn at_once asks_foo no_counters).1
handle_conn_restores_example = handle_conn_restores conn at_once asks_foo no_counters
