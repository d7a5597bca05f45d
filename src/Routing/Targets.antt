-- ===== src/Routing/Targets.antt =====
-- `buildModuleTargets` against a description of its result.
use rsync_proxy.Base.{
  bytes_beq_iff, bytes_eq, ◌≡◌, refl, ap, ◌∙◌, inl, inr, Option, none, some, List, [], ◌∷◌, ◌++◌,
  append-nil, append_assoc, if◌then◌else◌, Bool-cases, Bytes, bytes_beq, lookup, lookup-insert,
}
use rsync_proxy.Routing.{
  Target, UpstreamConfig, or_nil, ModuleMap, append_target, add_modules, add_upstreams,
  build_module_targets,
}

-- The target, once for each place where the upstream lists the module.
abbrev pub listed : Bytes → Target → List Bytes → List Target
listed name target [] = []
listed name target (n ∷ names) =
    (if bytes_beq n name then target ∷ [] else []) ++ listed name target names

-- The targets of a module: those of the upstreams that list it, in the order of the upstreams.
abbrev pub targets_of : Bytes → List UpstreamConfig → List Target
targets_of name [] = []
targets_of name (u ∷ us) = listed name u.target u.modules ++ targets_of name us

-- A module that no upstream lists is not in the map.
abbrev pub if_any : List Target → Option (List Target)
if_any [] = none
if_any (t ∷ ts) = some (t ∷ ts)

or_nil-if_any : (ts : List Target) → or_nil (if_any ts) ≡ ts
or_nil-if_any [] = refl
or_nil-if_any (t ∷ ts) = refl

if_any-snoc : (ts : List Target) (t : Target) → if_any (ts ++ t ∷ []) ≡ some (ts ++ t ∷ [])
if_any-snoc [] t = refl
if_any-snoc (x ∷ ts) t = refl

append_target_lem :
    (name other : Bytes) (t : Target) (m : ModuleMap) (ts : List Target)
    → lookup name m ≡ if_any ts
    → lookup name (append_target other t m)
      ≡ if_any (ts ++ (if bytes_beq other name then t ∷ [] else []))
unfolding append_target
append_target_lem name other t m ts h = elim (Bool-cases (bytes_beq other name)) [
  | inl hit ↦
      rw (lookup-insert other name (or_nil (lookup other m) ++ t ∷ []) m, hit, if_any-snoc ts t)
        (ap (λ l. some (l ++ t ∷ []))
          (ap (λ k. or_nil (lookup k m)) ((bytes_beq_iff other name).0 hit)
            ∙ ap or_nil h
            ∙ or_nil-if_any ts))
  | inr miss ↦ rw (lookup-insert other name _ m, miss, append-nil ts) h
]

add_modules_lem :
    (name : Bytes) (t : Target) (names : List Bytes) (m : ModuleMap) (ts : List Target)
    → lookup name m ≡ if_any ts
    → lookup name (add_modules t names m) ≡ if_any (ts ++ listed name t names)
unfolding add_modules
add_modules_lem name t [] m ts h = rw (append-nil ts) h
add_modules_lem name t (n ∷ names) m ts h =
    add_modules_lem name t names (append_target n t m) _ (append_target_lem name n t m ts h)
    ∙ ap if_any (append_assoc ts _ (listed name t names))

add_upstreams_lem :
    (name : Bytes) (us : List UpstreamConfig) (m : ModuleMap) (ts : List Target)
    → lookup name m ≡ if_any ts
    → lookup name (add_upstreams us m) ≡ if_any (ts ++ targets_of name us)
unfolding add_upstreams
add_upstreams_lem name [] m ts h = rw (append-nil ts) h
add_upstreams_lem name (u ∷ us) m ts h =
    add_upstreams_lem name us (add_modules u.target u.modules m) _
      (add_modules_lem name u.target u.modules m ts h)
    ∙ ap if_any (append_assoc ts (listed name u.target u.modules) (targets_of name us))

-- A module is in the map exactly if an upstream lists it, and then has the targets of all that do,
-- in their order; no entry is empty.
pub lookup-build_module_targets :
    (name : Bytes) (us : List UpstreamConfig)
    → lookup name (build_module_targets us) ≡ if_any (targets_of name us)
unfolding build_module_targets
lookup-build_module_targets name us = add_upstreams_lem name us [] [] (unfold lookup in refl)
