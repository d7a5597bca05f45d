-- ===== src/Tests/SharedRuns.antt =====
-- Two requests of /upstream-modules at once.
use rsync_proxy.Base.{
  ℕ, zero, suc, ◌≡◌, refl, ◌≢◌, true, false, none, [], ◌∷◌, arith, Bytes, codes, bytes_eq, pair_eq,
  nat_eq, lookup,
}
use rsync_proxy.Http.Shared.{
  check, waiting, answered, Handlers, begins, checks, answer_modules, begin, Reach, start, next,
  begun, checked,
}
use rsync_proxy.Http.{parse_bool, get, force_discover_of, upstream_modules}
use rsync_proxy.Http.Messages.{Request, Response}
use rsync_proxy.Http.Shared.Answers.{requests_answered}
use rsync_proxy.Http.Shared.Races.{Asks, refuses, shared_err_mixes}
use rsync_proxy.Tests.HttpRuns.{outside, with_upstream}

abbrev asking : Bytes → Request
asking value = record {
  method = codes "GET";
  path = codes "/upstream-modules";
  query = (codes "name", codes "u" ∷ []) ∷ (codes "force_discover", value ∷ []) ∷ [];
}

-- The first request has a value that cannot be parsed.
abbrev requests : ℕ → Request
requests zero = asking (codes "maybe")
requests (suc n) = asking (codes "true")

abbrev not_begun : Handlers
not_begun = record { err = true; phase = λ i. waiting }

asking-Asks : (v : Bytes) → Asks (asking v) v
unfolding get lookup
asking-Asks v = record { by_get = refl; has_name = refl; forces = refl }

shared_err_mixes_example :
    ((upstream_modules outside with_upstream (requests 1)
        ≡ answer_modules outside with_upstream (requests 1) true)
      × ((k : Handlers) × Reach outside with_upstream requests k × (k.phase 1 ≡ answered refuses)))
    × ((upstream_modules outside with_upstream (requests 0) ≡ refuses)
        × ((k : Handlers) × Reach outside with_upstream requests k
            × (k.phase 0 ≡ answered (answer_modules outside with_upstream (requests 0) false))))
unfolding parse_bool
shared_err_mixes_example =
    shared_err_mixes outside with_upstream requests 1 0 (codes "true") (codes "maybe") true
      not_begun (start true) refl refl (λ e. omega arith) (asking-Asks (codes "true"))
      (asking-Asks (codes "maybe")) refl refl

-- All values can be parsed, and the two take turns.
abbrev good_requests : ℕ → Request
good_requests n = asking (codes "true")

abbrev one_done : Handlers
one_done = checks outside with_upstream good_requests 0 true (
    begins outside with_upstream good_requests 1
      (begins outside with_upstream good_requests 0 not_begun))

one_done-Reach : Reach outside with_upstream good_requests one_done
unfolding begin get parse_bool lookup
one_done-Reach = next (next (next (start true) (begun 0 refl)) (begun 1 refl)) (checked 0 true refl)

good_requests_parse : (i : ℕ) → force_discover_of (good_requests i).query ≢ none
unfolding force_discover_of parse_bool lookup
good_requests_parse i e = absurd (cc)

abbrev their_answer : Response
their_answer = answer_modules outside with_upstream (asking (codes "true")) true

one_done_answered : one_done.phase 0 ≡ answered their_answer
unfolding begin get parse_bool check lookup
one_done_answered = refl

requests_answered_example : their_answer ≡ upstream_modules outside with_upstream (good_requests 0)
requests_answered_example =
    requests_answered outside with_upstream good_requests good_requests_parse 0 their_answer
      one_done-Reach one_done_answered
