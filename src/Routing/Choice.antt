-- ===== src/Routing/Choice.antt =====
-- The choice of a target is in range, and does not depend on the form of the client's address.
use native.Mathlib.Nat.{mod-lt}
use rsync_proxy.Base.{
  ◌∙◌, Option-cases, inr, none, false, inl, true, Bool-cases, leb, ℕ, ◌%◌, ◌^◌, ◌<◌, ◌≡◌, refl,
  some, [], ◌∷◌, arith, Bytes,
}
use rsync_proxy.Routing.{to4, to16, fnv32a, hash_mod, choose_target_by_client_ip}

hash_mod-lt :
    (h count : ℕ) → 0 < count → count < 2 ^ 32 → (i : ℕ) × (hash_mod h count ≡ some i) × (i < count)
unfolding hash_mod
hash_mod-lt h count p q = (h % count, ground (arith), mod-lt h p)

choose_single :
    (ip : Bytes) (count : ℕ) → leb count 1 ≡ true → choose_target_by_client_ip ip count ≡ some 0
unfolding choose_target_by_client_ip
choose_single ip count single = rw single refl

module _ (ip : Bytes) (count : ℕ) where
  choose_unknown :
      leb count 1 ≡ false
      → to4 ip ≡ none
      → to16 ip ≡ none
      → choose_target_by_client_ip ip count ≡ some 0
  unfolding choose_target_by_client_ip
  choose_unknown several e f = ground arith

  choose_v4 :
      (v4 : Bytes)
      → leb count 1 ≡ false
      → to4 ip ≡ some v4
      → choose_target_by_client_ip ip count ≡ hash_mod (fnv32a 2166136261 v4) count
  unfolding choose_target_by_client_ip
  choose_v4 v4 several e = ground arith

  choose_v6 :
      (v6 : Bytes)
      → leb count 1 ≡ false
      → to4 ip ≡ none
      → to16 ip ≡ some v6
      → choose_target_by_client_ip ip count ≡ hash_mod (fnv32a 2166136261 v6) count
  unfolding choose_target_by_client_ip
  choose_v6 v6 several e f = ground arith

-- The index is that of a target, for any number of targets that a `uint32` holds.
pub choose-lt :
    (ip : Bytes) (count : ℕ)
    → 0 < count
    → count < 2 ^ 32
    → (i : ℕ) × (choose_target_by_client_ip ip count ≡ some i) × (i < count)
choose-lt ip count p q = elim (Bool-cases (leb count 1)) [
  | inl single ↦ (0, choose_single ip count single, p)
  | inr several ↦ elim (Option-cases (to4 ip)) [
    | inl none4 ↦ elim (Option-cases (to16 ip)) [
      | inl none16 ↦ (0, choose_unknown ip count several none4 none16, p)
      | inr (v6, e) ↦
          let (i, is, lt) = hash_mod-lt (fnv32a 2166136261 v6) count p q in
          (i, choose_v6 ip count v6 several none4 e ∙ is, lt)
    ]
    | inr (v4, e) ↦
        let (i, is, lt) = hash_mod-lt (fnv32a 2166136261 v4) count p q in
        (i, choose_v4 ip count v4 several e ∙ is, lt)
  ]
]

-- A client gets the same target whether its IPv4 address comes in 4 bytes or in 16.
choose-to16 :
    (a b c d count : ℕ)
    → (ip : Bytes) × (to16 (a ∷ b ∷ c ∷ d ∷ []) ≡ some ip)
      × (choose_target_by_client_ip ip count
          ≡ choose_target_by_client_ip (a ∷ b ∷ c ∷ d ∷ []) count)
unfolding to16 to4 choose_target_by_client_ip
choose-to16 a b c d count = (_, refl, refl)
