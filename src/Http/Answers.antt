-- ===== src/Http/Answers.antt =====
-- What requests do to the server.
use rsync_proxy.Base.{
  ℕ, ◌≡◌, refl, sym, ap, subst, ◌∙◌, ◌⊎◌, inl, inr, true, false, Option, none, some, List, [], ◌∷◌,
  Memᴰ, arith, Bool-cases, Bytes, codes, bytes_beq, bytes_beq_iff, bytes_eq, pair_eq, nat_eq,
  lookup,
}
use rsync_proxy.Counters.{Counters}
use rsync_proxy.Http.{
  Outside, ConfigFile, not_opened, not_decoded, decoded, ReadError, serve, reload,
  read_config_from_file, load_result, reload_answer,
}
use rsync_proxy.Http.Messages.{Request, Response}
use rsync_proxy.Routing.{ModuleMap, Target}
use rsync_proxy.Server.{Server, World, LoadError, load_config}
use rsync_proxy.Server.Settings.{Config}
use rsync_proxy.Server.Load.{served, load_config-failed}
use rsync_proxy.Server.Queues.{HasQueues, load_config-HasQueues}

-- The file has a configuration, and it was loaded.
abbrev pub IsLoaded : ConfigFile → World → Server → Server → Type 0
IsLoaded f w s t = (c : Config) × (f ≡ decoded c) × (load_config w c true s ≡ (t, none))

pub read_cases :
    (f : ConfigFile) (w : World) (s : Server)
    → let r = read_config_from_file f w true s in
      ((e : ReadError) × (r.1 ≡ some e) × (served r.0 ≡ served s))
      ⊎ ((r.1 ≡ none) × IsLoaded f w s r.0)
unfolding read_config_from_file
read_cases not_opened w s = inl (_, refl, refl)
read_cases not_decoded w s = inl (_, refl, refl)
read_cases (decoded c) w s = from_load (load_config w c true s) refl
  where
    from_load :
        (p : Server × Option LoadError)
        → load_config w c true s ≡ p
        → ((e : ReadError) × ((load_result p).1 ≡ some e) × (served (load_result p).0 ≡ served s))
          ⊎ (((load_result p).1 ≡ none) × IsLoaded (decoded c) w s (load_result p).0)
    from_load (t, none) e = inr (refl, (c, refl, e))
    from_load (t, some x) e = inl (
      _,
      refl,
      ap (λ (p : Server × Option LoadError). served p.0) (sym e)
          ∙ load_config-failed w c true s x (ap (λ (p : Server × Option LoadError). p.1) e),
    )

-- The request asks for a reload.
abbrev AsksReload : Request → Type 0
AsksReload r = (r.path ≡ codes "/reload") × (r.method ≡ codes "POST")

-- What a request can do, by its answer and the state after it.
abbrev pub DoneBy : Outside → Request → Server → Response × Server → Type 0
DoneBy o r s (a, t) =
    (¬ AsksReload r × (t ≡ s))
    ⊎ (AsksReload r
        × (((a.status_code ≡ 500) × (served t ≡ served s))
            ⊎ ((a.status_code ≡ 200) × IsLoaded o.config_file o.world s t)))

reload-DoneBy :
    (o : Outside) (s : Server) (r : Request)
    → r.path ≡ codes "/reload"
    → DoneBy o r s (reload o s r)
unfolding reload
reload-DoneBy o s r here = elim (Bool-cases (bytes_beq r.method (codes "POST"))) [
  | inr other ↦ rw other (inl ((λ asks. absurd (differs asks.1 other)), refl))
  | inl post ↦ rw post (
      inr (
        (here, (bytes_beq_iff r.method (codes "POST")).0 post),
        answered (read_cases o.config_file o.world s),
      ))
]
  where
    differs : r.method ≡ codes "POST" → bytes_beq r.method (codes "POST") ≡ false → ⊥
    differs e h = cc (h, (bytes_beq_iff r.method (codes "POST")).1 e)

    answered :
        let p = read_config_from_file o.config_file o.world true s in
        ((e : ReadError) × (p.1 ≡ some e) × (served p.0 ≡ served s))
          ⊎ ((p.1 ≡ none) × IsLoaded o.config_file o.world s p.0)
        → (((reload_answer p.1).status_code ≡ 500) × (served p.0 ≡ served s))
          ⊎ (((reload_answer p.1).status_code ≡ 200) × IsLoaded o.config_file o.world s p.0)
    answered (inl (e, failed, same)) = inl (rw failed refl, same)
    answered (inr (fine, loaded)) = inr (rw fine refl, loaded)

pub serve-elsewhere :
    (o : Outside) (c : Counters) (s : Server) (r : Request)
    → bytes_beq r.path (codes "/reload") ≡ false
    → (serve o c s r).1 ≡ s
unfolding serve
serve-elsewhere o c s r h = ground arith

pub serve-reload :
    (o : Outside) (c : Counters) (s : Server) (r : Request)
    → r.path ≡ codes "/reload"
    → serve o c s r ≡ reload o s r
unfolding serve
serve-reload o c s r h = rw h refl

-- Only a POST of /reload changes the server. If it is answered with 500, clients are served by what
-- they were served by; if with 200, the file has a configuration, and the state is the one that its
-- load, without an error, leaves. It has no other answer.
pub serve-DoneBy :
    (o : Outside) (c : Counters) (s : Server) (r : Request) → DoneBy o r s (serve o c s r)
serve-DoneBy o c s r = elim (Bool-cases (bytes_beq r.path (codes "/reload"))) [
  | inl hit ↦
      let here = (bytes_beq_iff r.path (codes "/reload")).0 hit in
      subst (DoneBy o r s) (sym (serve-reload o c s r here)) (reload-DoneBy o s r here)
  | inr miss ↦ inl (
    λ asks. cc (miss, (bytes_beq_iff r.path (codes "/reload")).1 asks.0),
    serve-elsewhere o c s r miss,
  )
]

-- One request after the other, each with what it finds.
pub record Asked : Type 0 where
  pub outside : Outside
  pub counters : Counters
  pub request : Request

unfoldable pub serve_all : List Asked → Server → Server
unfolding serve
serve_all [] s = s
serve_all (a ∷ rest) s = serve_all rest (serve a.outside a.counters s a.request).1

abbrev HasQueuesIn : ModuleMap → List (Bytes × ℕ) → Type 0
HasQueuesIn modules queues =
    (name : Bytes) (ts : List Target) (t : Target)
    → lookup name modules ≡ some ts
    → Memᴰ t ts
    → (p : ℕ) × (lookup t.upstream queues ≡ some p)

pub served-HasQueues : (s t : Server) → served t ≡ served s → HasQueues s → HasQueues t
served-HasQueues s t e h = subst (λ v. HasQueuesIn v.1 v.3) (sym e) h

serve-HasQueues :
    (a : Asked) (s : Server) → HasQueues s → HasQueues (serve a.outside a.counters s a.request).1
serve-HasQueues a s h =
    let t = (serve a.outside a.counters s a.request).1 in
    elim (serve-DoneBy a.outside a.counters s a.request) [
      | inl (other, same) ↦ subst HasQueues (sym same) h
      | inr (asks, inl (code, same)) ↦ served-HasQueues s t same h
      | inr (asks, inr (code, (c, is, loaded))) ↦
          subst HasQueues (ap (λ p. p.0) loaded)
            (load_config-HasQueues a.outside.world c true s (ap (λ p. p.1) loaded))
    ]

pub serve_all-keeps :
    (asked : List Asked) (s : Server) → HasQueues s → HasQueues (serve_all asked s)
unfolding serve_all
serve_all-keeps [] s h = h
serve_all-keeps (a ∷ rest) s h =
    serve_all-keeps rest (serve a.outside a.counters s a.request).1 (serve-HasQueues a s h)
