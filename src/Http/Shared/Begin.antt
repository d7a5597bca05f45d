-- ===== src/Http/Shared/Begin.antt =====
-- The two parts of a request of /upstream-modules beside the handler in one piece.
use rsync_proxy.Base.{
  ◌≡◌, refl, sym, ap, ◌∙◌, ◌≢◌, ◌⊎◌, inl, inr, Bool, true, false, Option, none, some, List, [], ◌∷◌,
  Bool-cases, Option-cases, Bytes, codes, bytes_beq, bytes_eq, pair_eq, nat_eq, lookup,
}
use rsync_proxy.Server.{Server}
use rsync_proxy.Http.{
  Outside, is_get, get, parse_bool, bad_request, force_discover_of, upstream_modules,
}
use rsync_proxy.Http.Messages.{Request}
use rsync_proxy.Http.Shared.{
  parsed, answered, first_value, answer_modules, parse_force, begin, check,
}

-- `upstream_modules` reads the same value.
abbrev force_of : Option Bytes → Option Bool
force_of none = some false
force_of (some v) = parse_bool v

force_discover_of_first :
    (q : List (Bytes × List Bytes))
    → force_discover_of q ≡ force_of (first_value (lookup (codes "force_discover") q))
unfolding force_discover_of
force_discover_of_first q = elim (Option-cases (lookup (codes "force_discover") q)) [
  | inl e ↦ rw (force_discover_of, e) refl
  | inr ([], e) ↦ rw (force_discover_of, e) refl
  | inr (v ∷ vs, e) ↦ rw (force_discover_of, e) refl
]

module _ (o : Outside) (s : Server) (r : Request) where
  by_another_method :
      (err : Bool) → is_get r ≡ false → begin o s r err ≡ (answered (upstream_modules o s r), err)
  unfolding begin upstream_modules
  by_another_method err e = rw e refl

  without_name :
      (err : Bool)
      → is_get r ≡ true
      → bytes_beq (get (codes "name") r.query) [] ≡ true
      → begin o s r err ≡ (answered (upstream_modules o s r), err)
  unfolding begin upstream_modules
  without_name err e n = rw (e, n) refl

  pub named :
      is_get r ≡ true
      → bytes_beq (get (codes "name") r.query) [] ≡ false
      → (v : Option Bytes) → first_value (lookup (codes "force_discover") r.query) ≡ v
      → ((err : Bool) → begin o s r err ≡ parse_force o s r v err)
        × ((f : Option Bool)
            → force_of v ≡ f
            → upstream_modules o s r ≡ (elim f [
              | none ↦ bad_request (codes "invalid force_discover value")
              | some force ↦ answer_modules o s r force
            ]))
  unfolding begin upstream_modules
  named e n v is =
      (λ err. rw (e, n, is) refl, λ f fo. rw (e, n, force_discover_of_first r.query, is, fo) refl)

  -- A request without a value of `force_discover` that cannot be parsed has its answer at once, or
  -- sets `err` to nil and has it when it finds that.
  pub begin_cases :
      (err : Bool)
      → force_discover_of r.query ≢ none
      → (begin o s r err ≡ (answered (upstream_modules o s r), err))
        ⊎ ((f : Bool) × (begin o s r err ≡ (parsed f, false))
            × (check o s r f false ≡ upstream_modules o s r))
  unfolding check
  begin_cases err well = elim (Bool-cases (is_get r)) [
    | inr e ↦ inl (by_another_method err e)
    | inl e ↦ elim (Bool-cases (bytes_beq (get (codes "name") r.query) [])) [
      | inl n ↦ inl (without_name err e n)
      | inr n ↦ elim (Option-cases (first_value (lookup (codes "force_discover") r.query))) [
        | inl is ↦
            let (b, u) = named e n none is in
            inl (b err ∙ ap (λ a. (answered a, err)) (sym (u (some false) refl)))
        | inr (v, is) ↦
            let (b, u) = named e n (some v) is in
            elim (Option-cases (parse_bool v)) [
              | inl bad ↦ absurd (well (force_discover_of_first r.query ∙ (rw is bad)))
              | inr (f, p) ↦ inr (f, b err ∙ (rw p refl), sym (u (some f) p))
            ]
      ]
    ]
  ]
