-- ===== src/Http/Shared.antt =====
-- pkg/server/server.go: the handler of /upstream-modules for many requests at once. They share the
-- variable `err` of `runHTTPServer`, which the handler sets and then reads; the rest of a request is
-- its own.
pub mod Begin
pub mod Answers
pub mod Races
use rsync_proxy.Base.{
  ℕ, ◌-◌, ◌/◌, ◌≡◌, Bool, true, false, not, Option, none, some, List, [], ◌∷◌, ◌==◌, if◌then◌else◌,
  Bytes, codes, bytes_beq, bytes_eq, pair_eq, nat_eq, lookup,
}
use rsync_proxy.Discovery.Upstreams.{list_upstream_modules}
use rsync_proxy.Server.{Server}
use rsync_proxy.Http.{
  Outside, is_get, get, parse_bool, bad_request, not_allowed, listed_answer, error_answer,
}
use rsync_proxy.Http.Messages.{Request, Response}

-- A request: not begun; after the assignment of `forceDiscover` and `err`; or answered.
pub data Phase : Type 0 where
  waiting : Phase
  parsed : Bool → Phase
  answered : Response → Phase

-- Whether `err` is set, and where each request is.
pub record Handlers : Type 0 where
  pub err : Bool
  pub phase : ℕ → Phase

-- The first value of the key, where it has one.
abbrev pub first_value : Option (List Bytes) → Option Bytes
first_value none = none
first_value (some []) = none
first_value (some (v ∷ vs)) = some v

-- `ListUpstreamModules` and the answer.
abbrev pub answer_modules : Outside → Server → Request → Bool → Response
answer_modules o s r force =
    listed_answer o.describe
      (list_upstream_modules o.discover (get (codes "name") r.query) force s.upstreams)

abbrev pub or_false : Option Bool → Bool
or_false none = false
or_false (some b) = b

abbrev pub is_none {ℓ} : {A : Type ℓ} → Option A → Bool
is_none none = true
is_none (some a) = false

-- `forceDiscover, err = strconv.ParseBool(...)`, where the key has a value.
abbrev pub parse_force : Outside → Server → Request → Option Bytes → Bool → Phase × Bool
parse_force o s r none err = (answered (answer_modules o s r false), err)
parse_force o s r (some v) err = (parsed (or_false (parse_bool v)), is_none (parse_bool v))

-- The handler up to that assignment, or to its end where it makes none, with what `err` is then.
unfoldable pub begin : Outside → Server → Request → Bool → Phase × Bool
unfolding get list_upstream_modules error_answer parse_bool
begin o s r err =
    if not (is_get r)
    then (answered not_allowed, err)
    else if bytes_beq (get (codes "name") r.query) []
    then (answered (bad_request (codes "missing upstream name")), err)
    else parse_force o s r (first_value (lookup (codes "force_discover") r.query)) err

-- From `if err != nil` on.
unfoldable pub check : Outside → Server → Request → Bool → Bool → Response
unfolding get list_upstream_modules error_answer
check o s r force err =
    if err then bad_request (codes "invalid force_discover value") else answer_modules o s r force

abbrev set_phase : ℕ → Phase → (ℕ → Phase) → ℕ → Phase
set_phase i p f j = if j == i then p else f j

abbrev pub begins : Outside → Server → (ℕ → Request) → ℕ → Handlers → Handlers
begins o s requests i h =
    let (p, err) = begin o s (requests i) h.err in
    record { err = err; phase = set_phase i p h.phase }

abbrev pub checks : Outside → Server → (ℕ → Request) → ℕ → Bool → Handlers → Handlers
checks o s requests i force h = record h {
  phase = set_phase i (answered (check o s (requests i) force h.err)) h.phase;
}

module _ (o : Outside) (s : Server) (requests : ℕ → Request) where
  pub data Step (h : Handlers) : Handlers → Type 0 where
    begun : (i : ℕ) → h.phase i ≡ waiting → Step h (begins o s requests i h)
    checked :
        (i : ℕ) (force : Bool) → h.phase i ≡ parsed force → Step h (checks o s requests i force h)

  -- `err` is first that of `os.Hostname`.
  pub data Reach : Handlers → Type 0 where
    start : (err : Bool) → Reach (record { err = err; phase = λ i. waiting })
    next : {h k : Handlers} → Reach h → Step h k → Reach k
