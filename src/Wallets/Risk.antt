-- ===== src/Wallets/Risk.antt =====
-- The risk policy of automatic approval (wallets/services/withdrawal_risk_service.py). Times are in
-- seconds. A destination is compared by its canonical JSON text.
pub mod Approval
use leagueos_backend.Prelude.{
  ℕ, ◌+◌, ◌*◌, Bool, true, false, not, ◌&&◌, none, some, List, [], ◌∷◌, ◌++◌, ltb, leb, ◌==◌,
  length, select, any, text_eq,
}
use leagueos_backend.Wallets.Model.{
  WalletStatus, active, Wallet, WithdrawalRequest, WithdrawalStatus, RiskStatus, passed, flagged,
  RiskReason, account_inactive, identity_not_verified, wallet_not_active,
  amount_above_auto_approval_limit, withdrawal_count_24h_limit, withdrawal_value_24h_limit,
  withdrawal_value_7d_limit, new_withdrawal_destination, recent_failed_withdrawal, Database, User,
}
use leagueos_backend.Wallets.Execute.{get_wallet}

-- The WALLET_WITHDRAWAL_AUTO_APPROVAL settings (config/settings.py), amounts in units of 0.0001.
pub record Settings : Type 0 where
  pub enabled : Bool
  pub max_single : ℕ
  pub max_24h : ℕ
  pub max_24h_count : ℕ
  pub max_7d : ℕ
  pub require_known_destination : Bool

pub record Decision : Type 0 where
  pub risk_status : RiskStatus
  pub auto_approve : Bool
  pub reasons : List RiskReason

unfoldable pub is_active_wallet : WalletStatus → Bool
is_active_wallet active = true
is_active_wallet _ = false

unfoldable pub is_completed : WithdrawalStatus → Bool
is_completed WithdrawalStatus.completed = true
is_completed _ = false

unfoldable pub is_failed : WithdrawalStatus → Bool
is_failed WithdrawalStatus.failed = true
is_failed _ = false

-- `wallet__user=user`, without the withdrawal itself
unfoldable pub is_other : ℕ → WithdrawalRequest → Database → WithdrawalRequest → Bool
is_other user w db x =
    (elim (get_wallet x.wallet db) [ none ↦ false | some wallet ↦ wallet.user == user ])
    && not (x.id == w.id)

-- `created_at__gte=now - window`
unfoldable pub is_recent : ℕ → ℕ → WithdrawalRequest → Bool
is_recent now window x = leb now (x.created_at + window)

unfoldable pub total_amount : List WithdrawalRequest → ℕ
total_amount [] = 0
total_amount (w ∷ ws) = w.amount + total_amount ws

abbrev pub day : ℕ
day = 24 * 60 * 60

abbrev pub week : ℕ
week = 7 * day

unfoldable pub has_known_destination : ℕ → WithdrawalRequest → Database → Bool
has_known_destination user w db =
    any (λ x. is_other user w db x && is_completed x.status && text_eq x.destination w.destination)
      db.withdrawals

-- `if condition: reasons.append(reason)`
unfoldable pub append_if : Bool → RiskReason → List RiskReason → List RiskReason
append_if true reason reasons = reasons ++ (reason ∷ [])
append_if false reason reasons = reasons

unfoldable pub risk_reasons :
    Settings → ℕ → User → Wallet → WithdrawalRequest → Database → List RiskReason
risk_reasons s now user wallet w db =
    let prior_24h = select (λ x. is_other user.id w db x && is_recent now day x) db.withdrawals in
    let prior_7d = select (λ x. is_other user.id w db x && is_recent now week x) db.withdrawals in
    let recent_failed =
      any (λ x. is_other user.id w db x && is_failed x.status && is_recent now week x)
        db.withdrawals in
    let r1 = append_if (not user.is_active) account_inactive [] in
    let r2 = append_if (not user.is_verified) identity_not_verified r1 in
    let r3 = append_if (not (is_active_wallet wallet.status)) wallet_not_active r2 in
    let r4 = append_if (ltb s.max_single w.amount) amount_above_auto_approval_limit r3 in
    let r5 = append_if (ltb s.max_24h_count (length prior_24h + 1)) withdrawal_count_24h_limit r4 in
    let r6 =
      append_if (ltb s.max_24h (total_amount prior_24h + w.amount)) withdrawal_value_24h_limit r5 in
    let r7 =
      append_if (ltb s.max_7d (total_amount prior_7d + w.amount)) withdrawal_value_7d_limit r6 in
    let r8 =
      append_if (s.require_known_destination && not (has_known_destination user.id w db))
        new_withdrawal_destination r7 in
    append_if recent_failed recent_failed_withdrawal r8

-- The decision that the reasons give.
unfoldable pub decide_on : Settings → List RiskReason → Decision
decide_on s [] = record { risk_status = passed; auto_approve = s.enabled; reasons = [] }
decide_on s (r ∷ rs) = record { risk_status = flagged; auto_approve = false; reasons = r ∷ rs }

unfoldable pub evaluate : Settings → ℕ → User → Wallet → WithdrawalRequest → Database → Decision
evaluate s now user wallet w db = decide_on s (risk_reasons s now user wallet w db)
