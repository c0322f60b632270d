-- ===== src/Wallets/Normalize.antt =====
-- `_normalize_currency`, `_normalize_amount`, `_normalize_reference` and the text normalisers of
-- WalletService (wallets/services/wallet_service.py). A text argument is given by the codes of its
-- ASCII characters, and `None` is the empty text.
use mathlib.Core.List.{reverse}
use leagueos_backend.Prelude.{
  ℕ, ◌-◌, Bool, true, ◌&&◌, ◌||◌, Option, [], ◌∷◌, map, ltb, leb, ◌==◌, if◌then◌else◌, length,
  Result, ok, err, ◌>>◌, require, or_raise,
}
use leagueos_backend.Prelude.Int.{ℤ, pos, negsuc}
use leagueos_backend.Wallets.Model.{
  Text, Error, invalid_currency, invalid_amount, amount_not_positive, invalid_reference,
}

unfoldable pub is_space : ℕ → Bool
is_space c = (leb 9 c && leb c 13) || (leb 28 c && leb c 32)

unfoldable pub drop_spaces : Text → Text
unfolding is_space
drop_spaces [] = []
drop_spaces (c ∷ s) = if is_space c then drop_spaces s else c ∷ s

-- `str.strip()`
unfoldable pub strip : Text → Text
unfolding drop_spaces
strip s = reverse (drop_spaces (reverse (drop_spaces s)))

-- `str.upper()`
unfoldable pub upper : Text → Text
upper = map (λ c. if leb b'a' c && leb c b'z' then c - 32 else c)

-- `str.isalpha()` on a text that is not empty
unfoldable pub is_alpha : Text → Bool
is_alpha [] = true
is_alpha (c ∷ s) = ((leb b'a' c && leb c b'z') || (leb b'A' c && leb c b'Z')) && is_alpha s

unfoldable pub normalize_currency : Text → Result Error Text
unfolding strip upper is_alpha
normalize_currency currency =
    let normalized = upper (strip currency) in
    require ((length normalized == 3) && is_alpha normalized) invalid_currency >> ok normalized

-- What `Decimal(str(amount))` gives: nothing, an infinity or a NaN, or a number of units.
pub data RawAmount : Type 0 where
  malformed not_finite : RawAmount
  units : ℤ → RawAmount

unfoldable pub normalize_amount : RawAmount → Result Error ℕ
normalize_amount malformed = err invalid_amount
normalize_amount not_finite = err amount_not_positive
normalize_amount (units (negsuc n)) = err amount_not_positive
normalize_amount (units (pos n)) = require (ltb 0 n) amount_not_positive >> ok n

-- `none` is a value that is no UUID.
unfoldable pub normalize_reference : Option ℕ → Result Error ℕ
normalize_reference reference = or_raise reference invalid_reference

-- `_normalize_withdrawal_reason` and `_normalize_provider_reference`: trimmed, and not empty.
unfoldable pub normalize_text : Text → Error → Result Error Text
unfolding strip
normalize_text text e =
    let normalized = strip text in require (ltb 0 (length normalized)) e >> ok normalized
