-- ===== src/Settlement/Resubmitted.antt =====
-- A claim that was accepted and is submitted again (settlement/service.go, `submitOne`).
use offline_pay.Base.{◌≡◌, none}
use offline_pay.Domain.Tokens.{Ident, Time}
use offline_pay.Store.Monad.{World, ok}
use offline_pay.Store.Runs.{Runs}
use offline_pay.Settlement.Types.{Service, ClaimItem}
use offline_pay.Settlement.Claim.{check_parties, check_signatures, check_binding, check_window}

-- The guards of `submitOne` in front of the look-up all pass.
pub record PassesGuards (s : Service) (u : Ident) (item : ClaimItem) (t : Time) (w : World)
    : Type 0 where
  pub parties : check_parties u item ≡ none
  pub signatures : check_signatures s item w ≡ ok none w
  pub binding : check_binding s item t w ≡ ok none w
  pub window : check_window s item t w ≡ ok none w
