-- ===== src/Client/Reloading.antt =====
-- The command reload and the daemon that it asks, together.
use rsync_proxy.Base.{
  ℕ, ◌≤◌, ◌<◌, ◌≡◌, refl, ap, ◌∙◌, ◌⊎◌, inl, inr, Option, none, some, arith, ltb, if◌then◌else◌,
  Bool-cases, Bytes, codes,
}
use rsync_proxy.Client.Program.{
  within_timeout, Surroundings, Flags, reload, Exit, execute, main, make_http_client, exit_of,
  result_of,
}
use rsync_proxy.Client.Commands.{Ask, http_post, send_reload_request}
use rsync_proxy.Http.Messages.{Request, Response}
use rsync_proxy.Client.Daemon.{daemon}
use rsync_proxy.Counters.{Counters}
use rsync_proxy.Http.{Outside, serve}
use rsync_proxy.Http.Answers.{IsLoaded, serve-DoneBy}
use rsync_proxy.Listeners.{Listening}
use rsync_proxy.Server.{Server}
use rsync_proxy.Server.Load.{served}

-- The exit code of the command, by the code of the answer.
main-reload :
    (o : Surroundings) (x : Listening) (flags : Flags) (a : Response)
    → make_http_client o flags.host (http_post (codes "/reload")) ≡ some a
    → (e : Exit) × (main o x flags reload ≡ some e)
      × (e.code ≡ (if ltb a.status_code 300 then 0 else 1))
unfolding main execute send_reload_request
main-reload o x flags a answers =
    let e = exit_of o (result_of (send_reload_request o.json (make_http_client o flags.host))) in
    (
      e,
      refl,
      elim (Bool-cases (ltb a.status_code 300)) [
        | inl good ↦ rw (answers, good) refl
        | inr bad ↦ rw (answers, bad) refl
      ],
    )

asks_reload :
    (out : Outside) (c : Counters) (s : Server)
    → let (a, t) = serve out c s (http_post (codes "/reload")) in
      ((a.status_code ≡ 500) × (served t ≡ served s))
      ⊎ ((a.status_code ≡ 200) × IsLoaded out.config_file out.world s t)
asks_reload out c s = elim (serve-DoneBy out c s (http_post (codes "/reload"))) [
  | inl (other, same) ↦ absurd (other (refl, refl))
  | inr (asks, done) ↦ done
]

main-reload_late :
    (o : Surroundings) (x : Listening) (flags : Flags)
    → make_http_client o flags.host (http_post (codes "/reload")) ≡ none
    → (e : Exit) × (main o x flags reload ≡ some e) × (e.code ≡ 1)
unfolding main execute send_reload_request
main-reload_late o x flags late =
    let e = exit_of o (result_of (send_reload_request o.json (make_http_client o flags.host))) in
    (e, refl, rw late refl)

-- What answers a client after `seconds`.
abbrev pub after_seconds : ℕ → Ask → Request → Option (ℕ × Response)
after_seconds seconds ask r = elim (ask r) [ none ↦ none | some a ↦ some (seconds, a) ]

in_time :
    (o : Surroundings) (host : Bytes) (seconds : ℕ) (ask : Ask) (r : Request) (a : Response)
    → ((family : Bytes) → o.dial family host ≡ after_seconds seconds ask)
    → ask r ≡ some a
    → make_http_client o host r ≡ (if ltb seconds 10 then some a else none)
unfolding make_http_client
in_time o host seconds ask r a there e =
    ap (λ k. within_timeout (k r)) (there _)
    ∙ ap
        (λ (v : Option Response).
          within_timeout (elim v [ none ↦ none | some b ↦ some (seconds, b) ]))
        e

-- If the socket of the command reload is the daemon's, whose answer is there after `seconds`, the
-- command returns. With an answer in less than ten seconds, either its exit code is 0 and the daemon
-- has loaded the configuration of its file without an error, or it is 1 and clients are served by
-- what they were served by before. With a later one its exit code is 1, and still the daemon has
-- done either.
pub reload_tells :
    (o : Surroundings) (x : Listening) (flags : Flags) (out : Outside) (c : Counters) (s : Server)
    (seconds : ℕ)
    → ((family : Bytes) → o.dial family flags.host ≡ after_seconds seconds (daemon out c s))
    → let t = (serve out c s (http_post (codes "/reload"))).1 in
      (e : Exit) × (main o x flags reload ≡ some e)
      × (((seconds < 10)
            × (((e.code ≡ 0) × IsLoaded out.config_file out.world s t)
                ⊎ ((e.code ≡ 1) × (served t ≡ served s))))
          ⊎ ((10 ≤ seconds)
              × (e.code ≡ 1)
              × (IsLoaded out.config_file out.world s t ⊎ (served t ≡ served s))))
reload_tells o x flags out c s seconds there =
    let a = (serve out c s (http_post (codes "/reload"))).0 in
    let timed =
      in_time o flags.host seconds (daemon out c s) (http_post (codes "/reload")) a there refl in
    elim (Bool-cases (ltb seconds 10)) [
      | inl soon ↦
          let (e, is, code) = main-reload o x flags a (timed ∙ (rw soon)) in
          (
            e,
            is,
            inl (
              ground (arith, soon),
              elim (asks_reload out c s) [
                | inl (failed, same) ↦ inr (code ∙ (rw failed refl), same)
                | inr (fine, loaded) ↦ inl (code ∙ (rw fine refl), loaded)
              ],
            ),
          )
      | inr late ↦
          let (e, is, code) = main-reload_late o x flags (timed ∙ (rw late)) in
          (
            e,
            is,
            inr (
              ground (arith, late),
              code,
              elim (asks_reload out c s) [
                | inl (failed, same) ↦ inr same
                | inr (fine, loaded) ↦ inl loaded
              ],
            ),
          )
    ]
