-- ===== src/Contracts.antt =====
-- app/contracts/client.py: `ArbExecutorClient`. The chain's identifier and the check of an address are
-- web3's, and so are arguments: `chain_id` is none where the call raises.
use arbitrage_bot.Base.{
  All, Bool, Option, ap, Option-cases, String, [], all, arith, contains, false, if◌then◌else◌, inl,
  inr, nat_eq, none, not, some, string_eq, true, ◌==◌, ◌↔◌, ◌∷◌, ◌≡◌,
}
use arbitrage_bot.Base.Int.{int_eq, leb_ℤ, pos, ℤ, ◌≤ℤ◌}
use arbitrage_bot.Base.Text.{lower}
use arbitrage_bot.Settings.{Settings, allowlisted_routers_set, allowlisted_tokens_set}

-- `ArbRouteCall`
pub record ArbRouteCall : Type 0 where
  pub router_a : String
  pub router_b : String
  pub token_start : String
  pub token_mid : String
  pub amount_in : ℤ
  pub min_amount_out_final : ℤ
  pub deadline : ℤ

-- the node's answer, and whether `Web3.to_checksum_address` accepts a text
pub record Web3 : Type 0 where
  pub chain_id : Option ℤ
  pub is_address : String → Bool

unfoldable pub validate_chain : Settings → Web3 → Bool
validate_chain s w = elim w.chain_id [ none ↦ false | some id ↦ id == s.hyperevm_chain_id ]

-- `validate_allowlist`
unfoldable pub validate_allowlist : Settings → ArbRouteCall → Bool × String
validate_allowlist s c =
    if not (contains (lower c.router_a) (allowlisted_routers_set s))
    then (false, "router_a_not_allowlisted")
    else if not (contains (lower c.router_b) (allowlisted_routers_set s))
    then (false, "router_b_not_allowlisted")
    else if not (contains (lower c.token_start) (allowlisted_tokens_set s))
    then (false, "token_start_not_allowlisted")
    else if not (contains (lower c.token_mid) (allowlisted_tokens_set s))
    then (false, "token_mid_not_allowlisted")
    else (true, "")

-- the loop over the four addresses
unfoldable pub addresses_ok : Web3 → ArbRouteCall → Bool
addresses_ok w c = all w.is_address (c.router_a ∷ c.router_b ∷ c.token_start ∷ c.token_mid ∷ [])

unfoldable pub dry_run : Settings → Web3 → ArbRouteCall → Bool × String
unfolding validate_chain validate_allowlist addresses_ok
dry_run s w c =
    if not (validate_chain s w)
    then (false, "chain_id_mismatch")
    else if not (addresses_ok w c)
    then (false, "invalid_address")
    else if not (validate_allowlist s c).0
    then (false, (validate_allowlist s c).1)
    else if leb_ℤ c.amount_in (pos 0)
    then (false, "invalid_amount")
    else if leb_ℤ c.deadline (pos 0)
    then (false, "deadline_required")
    else (true, "ok")

-- What a call needs.
pub record Callable (s : Settings) (w : Web3) (c : ArbRouteCall) : Type 0 where
  pub chain : w.chain_id ≡ some s.hyperevm_chain_id
  pub addresses :
      All (λ a. w.is_address a ≡ true) (c.router_a ∷ c.router_b ∷ c.token_start ∷ c.token_mid ∷ [])
  pub routers :
      (contains (lower c.router_a) (allowlisted_routers_set s) ≡ true)
      × (contains (lower c.router_b) (allowlisted_routers_set s) ≡ true)
  pub tokens :
      (contains (lower c.token_start) (allowlisted_tokens_set s) ≡ true)
      × (contains (lower c.token_mid) (allowlisted_tokens_set s) ≡ true)
  pub amount : pos 1 ≤ℤ c.amount_in
  pub deadline : pos 1 ≤ℤ c.deadline

chain_iff :
    (s : Settings) (w : Web3)
    → (validate_chain s w ≡ true) ↔ (w.chain_id ≡ some s.hyperevm_chain_id)
unfolding validate_chain
chain_iff s w = elim (Option-cases w.chain_id) [
  | inl e ↦ rw e ((λ h. cc), (λ h. cc))
  | inr (id, e) ↦
      let (to, from) = int_eq.equals_iff id s.hyperevm_chain_id in
      rw e ((λ h. ap some (to h)), (λ h. from (let same : id ≡ s.hyperevm_chain_id = cc in same)))
]

-- A dry run succeeds exactly where the node is on the configured chain, all four texts are addresses,
-- both routers and both tokens are on their allowlists, and amount and deadline are positive.
pub dry_run_iff :
    (s : Settings) (w : Web3) (c : ArbRouteCall) → (dry_run s w c ≡ (true, "ok")) ↔ Callable s w c
unfolding dry_run validate_allowlist addresses_ok
dry_run_iff s w c =
    let (to, from) = chain_iff s w in
    (
      (λ h. record {
        chain = to (ground arith);
        addresses = ground arith;
        routers = (ground arith, ground arith);
        tokens = (ground arith, ground arith);
        amount = ground arith;
        deadline = ground arith;
      }),
      λ q.
          let chain = from q.chain in
          let addresses = q.addresses in
          let routers = q.routers in
          let tokens = q.tokens in
          let amount = q.amount in let deadline = q.deadline in ground arith,
    )
