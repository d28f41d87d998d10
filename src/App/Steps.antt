-- ===== src/App/Steps.antt =====
-- The program as a transition system: requests of the API, rounds of the scan loop and restarts, in
-- any order and at any instants.
use arbitrage_bot.Base.{String, Bool, Option, true, ℕ, ◌≡◌}
use arbitrage_bot.Decimal.{Decimal}
use arbitrage_bot.Risk.Guards.{Request}
use arbitrage_bot.App.{App, Env, restart}
use arbitrage_bot.App.Control.{ApiRequest, Command, handle}
use arbitrage_bot.App.Scan.{begin_round, scan_one}

-- a step, where the commands of requests meet a test
pub data Step (allowed : Command → Bool) : App → App → Type 0 where
  request :
      (env : Env) (r : ApiRequest) (a : App)
      → allowed r.command ≡ true
      → Step allowed a (handle env r a).1
  begin : (env : Env) (wallet : Decimal) (a : App) → Step allowed a (begin_round env wallet a)
  scan :
      (now : ℕ) (env : Env) (name : String) (r : Request) (chain : Option Bool) (a : App)
      → a.scanning ≡ true
      → Step allowed a (scan_one now env name r chain a)
  crash : (env : Env) (a : App) → Step allowed a (restart env a)

pub data Steps (allowed : Command → Bool) (a : App) : App → Type 0 where
  here : Steps allowed a a
  next : {b c : App} → Steps allowed a b → Step allowed b c → Steps allowed a c

-- An invariant of the steps holds in every state that they reach.
pub Steps-invariant {κ} :
    (P : App → Type κ) {allowed : Command → Bool}
    → ((b c : App) → Step allowed b c → P b → P c)
    → (a z : App) → Steps allowed a z
    → P a
    → P z
Steps-invariant P keep a z here p = p
Steps-invariant P keep a z (next {b = b} {c = c} s t) p =
    keep b c t (Steps-invariant P keep a b s p)
