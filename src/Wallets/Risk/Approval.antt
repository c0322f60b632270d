-- ===== src/Wallets/Risk/Approval.antt =====
-- When the risk policy (wallets/services/withdrawal_risk_service.py) approves a withdrawal by itself.
use leagueos_backend.Prelude.{
  ℕ, ◌+◌, ◌≤◌, ◌≡◌, Bool, true, false, not, ◌&&◌, List, [], ◌∷◌, arith, length, select, any,
}
use leagueos_backend.Wallets.Model.{Wallet, WithdrawalRequest, User, Database, RiskReason}
use leagueos_backend.Wallets.Risk.{
  Settings, is_active_wallet, is_failed, is_other, is_recent, total_amount, day, week,
  has_known_destination, append_if, risk_reasons, decide_on, evaluate,
}

append_if-empty :
    (b : Bool) (r : RiskReason) (rs : List RiskReason)
    → append_if b r rs ≡ []
    → (b ≡ false) × (rs ≡ [])
unfolding append_if
append_if-empty true r [] h = absurd (cc)
append_if-empty true r (x ∷ rs) h = absurd (cc)
append_if-empty false r rs h = (cc, h)

decide_on-approved :
    (s : Settings) (rs : List RiskReason)
    → (decide_on s rs).auto_approve ≡ true
    → (s.enabled ≡ true) × (rs ≡ [])
unfolding decide_on
decide_on-approved s [] h = (h, cc)
decide_on-approved s (r ∷ rs) h = absurd (cc)

-- The withdrawals of the user before this one, of the last day and of the last week.
abbrev pub prior : ℕ → ℕ → ℕ → WithdrawalRequest → Database → List WithdrawalRequest
prior window now user w db =
    select (λ x. is_other user w db x && is_recent now window x) db.withdrawals

-- A withdrawal is approved by the policy only if it is enabled, the account is active and verified,
-- the wallet is active, the amount, and the number and the value of the withdrawals of the last day
-- and the value of those of the last week with it, are within the limits, the destination is known
-- where that is required, and no withdrawal of the last week has failed.
pub evaluate-approved :
    (s : Settings) (now : ℕ) (user : User) (wallet : Wallet) (w : WithdrawalRequest) (db : Database)
    → (evaluate s now user wallet w db).auto_approve ≡ true
    → (s.enabled ≡ true)
      × (user.is_active ≡ true)
      × (user.is_verified ≡ true)
      × (is_active_wallet wallet.status ≡ true)
      × (w.amount ≤ s.max_single)
      × (length (prior day now user.id w db) + 1 ≤ s.max_24h_count)
      × (total_amount (prior day now user.id w db) + w.amount ≤ s.max_24h)
      × (total_amount (prior week now user.id w db) + w.amount ≤ s.max_7d)
      × (s.require_known_destination && not (has_known_destination user.id w db) ≡ false)
      × (any
            (λ x. is_other user.id w db x && is_failed x.status && is_recent now week x)
            db.withdrawals
          ≡ false)
unfolding evaluate risk_reasons
evaluate-approved s now user wallet w db h =
    let (enabled, h₀) = decide_on-approved s _ h in
    let (failed, h₁) = append_if-empty _ _ _ h₀ in
    let (known, h₂) = append_if-empty _ _ _ h₁ in
    let (value_7d, h₃) = append_if-empty _ _ _ h₂ in
    let (value_24h, h₄) = append_if-empty _ _ _ h₃ in
    let (count, h₅) = append_if-empty _ _ _ h₄ in
    let (single, h₆) = append_if-empty _ _ _ h₅ in
    let (usable, h₇) = append_if-empty _ _ _ h₆ in
    let (verified, h₈) = append_if-empty _ _ _ h₇ in
    let (is_active, h₉) = append_if-empty _ _ _ h₈ in
    (
      enabled,
      ground arith,
      ground arith,
      ground arith,
      ground arith,
      ground arith,
      ground arith,
      ground arith,
      known,
      failed,
    )
