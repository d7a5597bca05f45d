-- ===== src/Routing.antt =====
-- pkg/server/server.go: from the configured upstreams to the target of a client.
pub mod Targets
pub mod Choice
use rsync_proxy.Base.{
  bytes_eq, ℕ, ◌+◌, ◌-◌, ◌*◌, ◌/◌, ◌%◌, ◌^◌, ap, Bool, not, ◌&&◌, Option, none, some, List, [], ◌∷◌,
  ◌++◌, map, leb, ◌==◌, if◌then◌else◌, Bytes, has_prefix, length, drop, ℤ, lookup, insert,
}
use Prim.Native.Nat.{bit_xor}

-- `Target`
pub record Target : Type 0 where
  pub upstream : Bytes
  pub addr : Bytes
  pub use_proxy_protocol : Bool

-- `upstreamConfig`
pub record UpstreamConfig : Type 0 where
  pub name : Bytes
  pub target : Target
  pub modules : List Bytes
  pub discover_modules : Bool
  pub max_active_conns : ℤ
  pub max_queued_conns : ℤ

-- What a map of slices gives for a missing key.
abbrev pub or_nil {ℓ} : {A : Type ℓ} → Option (List A) → List A
or_nil none = []
or_nil (some xs) = xs

-- The loop of `resolveUpstreams`; `discovered` is empty where it is `nil`.
unfoldable pub resolve_upstreams :
    List UpstreamConfig → List (Bytes × List Bytes) → List UpstreamConfig
resolve_upstreams [] discovered = []
resolve_upstreams (u ∷ us) discovered =
    record u {
      modules = if u.discover_modules then or_nil (lookup u.name discovered) else u.modules;
    }
    ∷ resolve_upstreams us discovered

abbrev pub ModuleMap : Type 0
ModuleMap = List (Bytes × List Target)

-- `modules[moduleName] = append(modules[moduleName], upstream.Target)`
append_target : Bytes → Target → ModuleMap → ModuleMap
append_target name target m = insert name (or_nil (lookup name m) ++ target ∷ []) m

-- The inner loop of `buildModuleTargets`.
add_modules : Target → List Bytes → ModuleMap → ModuleMap
add_modules target [] m = m
add_modules target (name ∷ names) m = add_modules target names (append_target name target m)

-- The outer loop.
add_upstreams : List UpstreamConfig → ModuleMap → ModuleMap
add_upstreams [] m = m
add_upstreams (u ∷ us) m = add_upstreams us (add_modules u.target u.modules m)

-- `buildModuleTargets`
unfoldable pub build_module_targets : List UpstreamConfig → ModuleMap
unfolding add_upstreams add_modules append_target
build_module_targets us = add_upstreams us []

-- `net.IP.To4`: the last four bytes of an IPv4 address in either form.
unfoldable pub to4 : Bytes → Option Bytes
to4 (a ∷ b ∷ c ∷ d ∷ []) = some (a ∷ b ∷ c ∷ d ∷ [])
to4 ip =
    if length ip == 16 && has_prefix ip (0 ∷ 0 ∷ 0 ∷ 0 ∷ 0 ∷ 0 ∷ 0 ∷ 0 ∷ 0 ∷ 0 ∷ 0xff ∷ 0xff ∷ [])
    then some (drop 12 ip)
    else none

-- `net.IP.To16`
unfoldable pub to16 : Bytes → Option Bytes
to16 ip =
    if length ip == 4
    then some ((0 ∷ 0 ∷ 0 ∷ 0 ∷ 0 ∷ 0 ∷ 0 ∷ 0 ∷ 0 ∷ 0 ∷ 0xff ∷ 0xff ∷ []) ++ ip)
    else if length ip == 16
    then some ip
    else none

-- The state of `fnv.New32a` after the bytes were written: for each, xor and multiply modulo 2^32.
fnv32a : ℕ → Bytes → ℕ
fnv32a h [] = h
fnv32a h (b ∷ bs) = fnv32a (bit_xor h b * 16777619 % 2 ^ 32) bs

-- The remainder by `uint32(targetCount)`; `none` is the panic of a division by 0.
hash_mod : ℕ → ℕ → Option ℕ
hash_mod h count = if count % 2 ^ 32 == 0 then none else some (h % (count % 2 ^ 32))

-- `chooseTargetByClientIP`; an address that is not parsed is empty.
unfoldable pub choose_target_by_client_ip : Bytes → ℕ → Option ℕ
unfolding fnv32a hash_mod
choose_target_by_client_ip ip target_count = if leb target_count 1 then some 0 else (elim (to4 ip) [
  | some v4 ↦ hash_mod (fnv32a 2166136261 v4) target_count
  | none ↦ elim (to16 ip) [ some v6 ↦ hash_mod (fnv32a 2166136261 v6) target_count | none ↦ some 0 ]
])
