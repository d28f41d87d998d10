-- ===== src/Runner/Depeg.antt =====
-- `_scan_loop` hands the raw edge of the quote to the depeg guard of `evaluate`.
use arbitrage_bot.Base.{
  Bool-cases, String, ap, arith, false, inl, inr, leb, refl, sym, true, ℕ, ◌∙◌, ◌≡◌,
}
use arbitrage_bot.Base.Int.{abs_ℕ, leb_ℤ, ltb_ℤ, negsuc, pos, ℤ, ◌*ℤ◌}
use arbitrage_bot.Base.Result.{ok}
use arbitrage_bot.Decimal.{Decimal, abs, digits, fix, le, of_ℤ, precision, scale_up}
use arbitrage_bot.Decimal.Order.{le-of_ℤ, le_trans}
use arbitrage_bot.Health.{Collector}
use arbitrage_bot.Quote.{OpportunityDecision, RouteQuote}
use arbitrage_bot.Repository.{Route}
use arbitrage_bot.Risk.{Manager}
use arbitrage_bot.Risk.Decision.{evaluate_permits}
use arbitrage_bot.Risk.Evaluate.{evaluate}
use arbitrage_bot.Risk.Guards.{Request}
use arbitrage_bot.Runner.Quoted.{assess_parts}
use arbitrage_bot.Runner.Quoting.{assess, with_statuses}
use arbitrage_bot.Settings.{RunMode, Settings, is_live}
use mathlib.Core.Path.{subst}

fix-fits : (a : Decimal) → leb (digits (abs_ℕ a.coef)) precision ≡ true → fix a ≡ a
unfolding fix
fix-fits a fits = rw fits refl

-- a decimal within the precision is at most its absolute value
le-abs : (a : Decimal) → leb (digits (abs_ℕ a.coef)) precision ≡ true → le a (abs a) ≡ true
unfolding abs
le-abs a fits =
    let same : abs_ℕ (pos (abs_ℕ a.coef)) ≡ abs_ℕ a.coef = ground arith in
    rw (fix-fits (record { coef = pos (abs_ℕ a.coef); scale = a.scale }) (rw same fits))
      (go a.coef a.scale)
  where
    go :
        (x : ℤ) (k : ℕ)
        → le (record { coef = x; scale = k }) (record { coef = pos (abs_ℕ x); scale = k }) ≡ true
    go (pos n) k = unfold le scale_up ◌*ℤ◌ in ground arith
    go (negsuc n) k = unfold le scale_up ◌*ℤ◌ in ground arith

-- Outside live mode no decision of the scan loop is tradable, on any quote whose modeled edge is at most
-- its raw edge, where the settings let the depeg threshold be below the least edge that a shadow trade
-- needs, as the defaults do: an edge that is large enough is taken for a depeg. The raw edge has at
-- most 28 digits.
pub depeg_blocks_paper :
    (now : ℕ) (s : Settings) (route : Route) (mode : RunMode) (wallet : Decimal)
    (signing_status : String) (balance : String × String) (q : RouteQuote) (c : Collector)
    (r : Request) (m : Manager) {d : OpportunityDecision}
    → assess now s route mode wallet signing_status balance q c ≡ ok r
    → is_live mode ≡ false
    → ltb_ℤ m.settings.depeg_threshold_bps m.settings.shadow_min_net_edge_bps ≡ true
    → le q.modeled_net_edge_bps q.raw_edge_bps ≡ true
    → leb (digits (abs_ℕ q.raw_edge_bps.coef)) precision ≡ true
    → (evaluate now r m).0 ≡ ok d
    → d.tradable ≡ false
depeg_blocks_paper now s route mode wallet signing_status balance q c r m {d} assessed paper_like
      gap below fits decides =
    elim (Bool-cases d.tradable) [
      | inr f ↦ f
      | inl t ↦
          let p = (evaluate_permits now r m decides).0 t in
          let (same, same_mode, deviation, _, _) =
            assess_parts now s route mode wallet signing_status balance q c assessed in
          let net : r.quote.modeled_net_edge_bps ≡ q.modeled_net_edge_bps =
            ap (λ x. x.modeled_net_edge_bps) same ∙ unfold with_statuses in refl in
          let enough : le (of_ℤ m.settings.shadow_min_net_edge_bps) q.modeled_net_edge_bps ≡ true =
            subst (λ x. le (of_ℤ m.settings.shadow_min_net_edge_bps) x ≡ true) net
              (p.worthwhile.shadow_edge (ap is_live same_mode ∙ paper_like)).0 in
          let pegged : le (abs q.raw_edge_bps) (of_ℤ m.settings.depeg_threshold_bps) ≡ true =
            subst (λ x. le (abs x) (of_ℤ m.settings.depeg_threshold_bps) ≡ true) deviation
              p.calm.peg.1 in
          let least : le (of_ℤ m.settings.shadow_min_net_edge_bps) q.raw_edge_bps ≡ true =
            le_trans _ q.modeled_net_edge_bps _ enough below in
          let most : le q.raw_edge_bps (of_ℤ m.settings.depeg_threshold_bps) ≡ true =
            le_trans _ (abs q.raw_edge_bps) _ (le-abs q.raw_edge_bps fits) pegged in
          let both : leb_ℤ m.settings.shadow_min_net_edge_bps m.settings.depeg_threshold_bps
              ≡ true =
            sym (le-of_ℤ _ _) ∙ le_trans _ q.raw_edge_bps _ least most in
          absurd (ground (arith, both, gap))
    ]
