-- ===== src/Relay/Copies.antt =====
-- pkg/server/server.go: the two goroutines of `relay` that copy, and `relay` itself from the first
-- of them to its end, as they run beside each other. `io.Copy` is given: by the calls of its reader
-- and writer that it may make.
pub mod Counts
pub mod Losses
pub mod Finish
pub mod Closings
pub mod Ends
use rsync_proxy.Base.{
  ℕ, ◌+◌, ◌-◌, ◌/◌, ◌<◌, ◌≡◌, Bool, true, false, not, ◌||◌, some, List, [], ◌∷◌, ◌++◌,
  if◌then◌else◌, Bytes, length, take,
}
use rsync_proxy.Relay.Effects.{
  Effect, close_client, close_upstream, close_read_client, close_read_upstream, count_completed,
  count_module, logged, finishes,
}
use rsync_proxy.Routing.{Target}
use rsync_proxy.Counters.{ConnInfo, read_sent, read_received}

-- What `io.Copy` does: `Read` of its reader gives some bytes, `Write` of its writer takes some, or
-- it returns, with an error or without.
pub data Call : Type 0 where
  reads writes : Bytes → Call
  returns : Bool → Call

-- What was read and what was written, where the last call comes first.
abbrev pub all_read : List Call → Bytes
all_read [] = []
all_read (reads b ∷ h) = all_read h ++ b
all_read (writes b ∷ h) = all_read h
all_read (returns e ∷ h) = all_read h

abbrev pub all_written : List Call → Bytes
all_written [] = []
all_written (reads b ∷ h) = all_written h
all_written (writes b ∷ h) = all_written h ++ b
all_written (returns e ∷ h) = all_written h

-- `sent` from the upstream to the client and `received` from the client to the upstream, as the
-- counters have it; the channels are named the other way round.
pub data Direction : Type 0 where
  sent received : Direction

-- A goroutine: in `io.Copy`, after it, or with its channel closed.
pub data Phase : Type 0 where
  copying : Phase
  returned : Bool → Phase
  closed : Phase

pub record Copier : Type 0 where
  pub calls : List Call
  pub phase : Phase

-- Where `relay` is: at the `select`, at `<-sentClosed`, at `<-receivedClosed`, or at its end.
pub data Main : Type 0 where
  selects awaits_sent awaits_received finished : Main

pub record Copying : Type 0 where
  pub from_client : Copier
  pub from_upstream : Copier
  pub info : ConnInfo
  -- Which copies were logged to have failed.
  pub copy_errors : List Direction
  pub main : Main
  pub effects : List Effect

abbrev pub copier : Direction → Copying → Copier
copier sent s = s.from_upstream
copier received s = s.from_client

abbrev set_copier : Direction → Copier → Copying → Copying
set_copier sent c s = record s { from_upstream = c }
set_copier received c s = record s { from_client = c }

-- `countingReader.Read` of `upReader` and of `downReader`
abbrev count_read : Direction → ℕ → ConnInfo → ConnInfo
count_read sent n info = read_sent n info
count_read received n info = read_received n info

abbrev counted : Direction → Call → ConnInfo → ConnInfo
counted d (reads b) info = count_read d (length b) info
counted d (writes b) info = info
counted d (returns e) info = info

abbrev after : Call → Phase
after (reads b) = copying
after (writes b) = copying
after (returns e) = returned e

-- A call of `io.Copy`
unfoldable pub call : Direction → Call → Copying → Copying
call d c s = record (set_copier d (record { calls = c ∷ (copier d s).calls; phase = after c }) s) {
  info = counted d c s.info;
}

-- The rest of a goroutine: the error is logged, the channel is closed.
unfoldable pub close_channel : Direction → Bool → Copying → Copying
close_channel d failed s = record (set_copier d (record (copier d s) { phase = closed }) s) {
  copy_errors = if failed then s.copy_errors ++ d ∷ [] else s.copy_errors;
}

abbrev pub closing : Direction → List Effect
closing sent = close_read_upstream ∷ close_client ∷ []
closing received = close_read_client ∷ close_upstream ∷ []

-- The case of the `select` for the direction that ended.
unfoldable pub select : Direction → Copying → Copying
select d s = record s { main = awaits_sent; effects = s.effects ++ closing d }

abbrev pub passes_sent : Copying → Copying
passes_sent s = record s { main = awaits_received }

-- From `<-receivedClosed` on.
unfoldable pub finish : Target → Bytes → Copying → Copying
finish target module_name s = record s {
  main = finished;
  effects =
      s.effects
      ++ count_completed s.info.sent_bytes s.info.received_bytes
        ∷ count_module module_name target.upstream s.info.sent_bytes s.info.received_bytes
        ∷ logged (finishes module_name s.info.sent_bytes s.info.received_bytes)
        ∷ [];
}

-- When the goroutines start.
abbrev pub start_copying : ConnInfo → Copying
start_copying info = record {
  from_client = record { calls = []; phase = copying };
  from_upstream = record { calls = []; phase = copying };
  info = info;
  copy_errors = [];
  main = selects;
  effects = [];
}

-- What closes the connection that a copy reads from, or its side for reading.
abbrev pub stops_reads : Direction → Effect → Bool
stops_reads sent close_upstream = true
stops_reads sent close_read_upstream = true
stops_reads received close_client = true
stops_reads received close_read_client = true
stops_reads d e = false

-- What closes the connection that a copy writes to.
abbrev pub stops_writes : Direction → Effect → Bool
stops_writes sent close_client = true
stops_writes received close_upstream = true
stops_writes d e = false

abbrev pub any_effect : (Effect → Bool) → List Effect → Bool
any_effect test [] = false
any_effect test (e ∷ es) = test e || any_effect test es

-- A connection that is closed gives and takes no more bytes. What a `Read` had got before is read
-- and counted before.
abbrev pub CanCall : Direction → Call → Copying → Type 0
CanCall d (reads b) s = any_effect (stops_reads d) s.effects ≡ false
CanCall d (writes b) s = any_effect (stops_writes d) s.effects ≡ false
CanCall d (returns e) s = Unit

module _ (allows : List Call → Bool) (target : Target) (module_name : Bytes) where
  -- One step of a goroutine or of `relay`.
  pub data Step (s : Copying) : Copying → Type 0 where
    calls :
        (d : Direction) (c : Call)
        → (copier d s).phase ≡ copying
        → CanCall d c s
        → allows (c ∷ (copier d s).calls) ≡ true
        → Step s (call d c s)
    closes :
        (d : Direction) (failed : Bool)
        → (copier d s).phase ≡ returned failed
        → Step s (close_channel d failed s)
    selected :
        (d : Direction) → s.main ≡ selects → (copier d s).phase ≡ closed → Step s (select d s)
    sent_closed : s.main ≡ awaits_sent → s.from_client.phase ≡ closed → Step s (passes_sent s)
    received_closed :
        s.main ≡ awaits_received
        → s.from_upstream.phase ≡ closed
        → Step s (finish target module_name s)

  -- From the start of the goroutines on, with nothing counted yet.
  pub data Reach : Copying → Type 0 where
    start :
        (info : ConnInfo)
        → info.sent_bytes ≡ 0
        → info.received_bytes ≡ 0
        → Reach (start_copying info)
    next : {s t : Copying} → Reach s → Step s t → Reach t
