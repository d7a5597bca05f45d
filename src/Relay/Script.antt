-- ===== src/Relay/Script.antt =====
-- The steps of which `relay` is made: reads, writes, `return`s with an error, and `defer`.
use rsync_proxy.Base.{ℕ, Bool, true, List, [], ◌∷◌, ◌++◌, if◌then◌else◌, Bytes}
use rsync_proxy.Wire.{Chunk, read_line}
use rsync_proxy.Relay.Effects.{Effect, to_client, to_upstream}

pub data RelayError : Type 0 where
  read_version unknown_version send_version read_module empty_request send_motd list_modules :
      RelayError
  no_queue send_queue_notice dial_failed proxy_header send_version_up read_version_up : RelayError
  unknown_version_up send_up_motd send_module_up index_panic : RelayError

-- `blocked`: it waits for something that does not come.
pub data Outcome {ℓ} (A : Type ℓ) : Type ℓ where
  done : A → Outcome A
  failed : RelayError → Outcome A
  blocked : Outcome A

-- What is still to be read, whether the next writes succeed (with none given they do), and what
-- was done so far.
pub record Session : Type 0 where
  pub client_in : List Chunk
  pub upstream_in : List Chunk
  pub client_writes : List Bool
  pub upstream_writes : List Bool
  pub effects : List Effect

abbrev pub M : Type 0 → Type 0
M A = Session → Outcome A × Session

abbrev pub bind_outcome : {A B : Type 0} → Outcome A × Session → (A → M B) → Outcome B × Session
bind_outcome (done a, s) f = f a s
bind_outcome (failed e, s) f = (failed e, s)
bind_outcome (blocked, s) f = (blocked, s)

infixl 5 ◌>>=◌ ◌>>◌
unfoldable pub ◌>>=◌ : {A B : Type 0} → M A → (A → M B) → M B
◌>>=◌ m f = λ s. bind_outcome (m s) f

unfoldable pub ◌>>◌ : {B : Type 0} → M (Unit {0}) → M B → M B
unfolding ◌>>=◌
m >> k = m >>= λ _. k

unfoldable pub return : {A : Type 0} → A → M A
return a = λ s. (done a, s)

unfoldable pub fail : {A : Type 0} → RelayError → M A
fail e = λ s. (failed e, s)

unfoldable pub block : {A : Type 0} → M A
block = λ s. (blocked, s)

abbrev add : List Effect → Session → Session
add es s = record s { effects = s.effects ++ es }

unfoldable pub tell_all : List Effect → M (Unit {0})
tell_all es = λ s. (done tt, add es s)

unfoldable pub tell : Effect → M (Unit {0})
unfolding tell_all
tell e = tell_all (e ∷ [])

-- `defer`: what follows however the rest ends, if it ends.
abbrev pub deferred : {A : Type 0} → List Effect → Outcome A × Session → Outcome A × Session
deferred es (done a, s) = (done a, add es s)
deferred es (failed e, s) = (failed e, add es s)
deferred es (blocked, s) = (blocked, s)

unfoldable pub finally : {A : Type 0} → List Effect → M A → M A
finally es m = λ s. deferred es (m s)

abbrev pub succeeds : List Bool → Bool
succeeds [] = true
succeeds (b ∷ bs) = b

abbrev later : List Bool → List Bool
later [] = []
later (b ∷ bs) = bs

-- `writeWithTimeout` on the two connections, with the error that `relay` makes of a failure.
unfoldable pub write_client : Bytes → RelayError → M (Unit {0})
write_client b e s =
    let s' = record s { client_writes = later s.client_writes } in
    if succeeds s.client_writes then (done tt, add (to_client b ∷ []) s') else (failed e, s')

-- `_, _ = writeWithTimeout(...)`
unfoldable pub try_write_client : Bytes → M (Unit {0})
try_write_client b s =
    let s' = record s { client_writes = later s.client_writes } in
    if succeeds s.client_writes then (done tt, add (to_client b ∷ []) s') else (done tt, s')

unfoldable pub write_upstream : Bytes → RelayError → M (Unit {0})
write_upstream b e s =
    let s' = record s { upstream_writes = later s.upstream_writes } in
    if succeeds s.upstream_writes then (done tt, add (to_upstream b ∷ []) s') else (failed e, s')

abbrev pub read_buffer_size : ℕ
read_buffer_size = 256

-- `readLine` into a buffer of the pool.
unfoldable pub read_client : RelayError → M Bytes
read_client e s =
    let r = read_line read_buffer_size s.client_in in
    let s' = record s { client_in = r.rest } in
    if r.failed then (failed e, s') else (done r.line, s')

unfoldable pub read_upstream : RelayError → M Bytes
read_upstream e s =
    let r = read_line read_buffer_size s.upstream_in in
    let s' = record s { upstream_in = r.rest } in
    if r.failed then (failed e, s') else (done r.line, s')
