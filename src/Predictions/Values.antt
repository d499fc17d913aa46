-- ===== src/Predictions/Values.antt =====
-- packages/domain/src/predictions/value-objects: odds and transaction hashes, with their guards.
use chiliztv_com.Base.{
  ℕ, ◌≤◌, ◌<◌, Bool, true, false, [], ◌∷◌, ◌&&◌, ◌||◌, ◌==◌, ◌≡◌, refl, ◌↔◌, ◌++◌, ltb, leb, all,
  All, length, Text, text_eq, codes, Result, ok, throws, if◌then◌else◌, arith,
}

-- The messages of `ValidationError`, one constructor for each `throw`.
pub data ValidationError : Type 0 where
  odds_not_a_number odds_too_small odds_too_large : ValidationError
  hash_required hash_malformed : ValidationError
  user_required match_required match_started : ValidationError
  not_settleable not_cancellable not_pending : ValidationError

-- A number as `Odds.create` receives it, in thousandths.
pub data Number : Type 0 where
  nan below_zero : Number
  thousandths : ℕ → Number

pub record Odds : Type 0 where
  pub value : ℕ

unfoldable pub create_odds : Number → Result ValidationError Odds
create_odds nan = throws odds_not_a_number
create_odds below_zero = throws odds_too_small
create_odds (thousandths n) =
    if leb n 1000
    then throws odds_too_small
    else if ltb 1000000 n
    then throws odds_too_large
    else ok (record { value = n })

unfoldable equal_odds : Odds → Odds → Bool
equal_odds a b = a.value == b.value

pub record TransactionHash : Type 0 where
  pub value : Text

-- `[a-fA-F0-9]`
abbrev is_hex : ℕ → Bool
is_hex c = (leb b'a' c && leb c b'f') || (leb b'A' c && leb c b'F') || (leb b'0' c && leb c b'9')

-- `/^0x[a-fA-F0-9]{64}$/`
unfoldable is_hash : Text → Bool
is_hash (z ∷ x ∷ digits) = z == b'0' && (x == b'x' && (all is_hex digits && length digits == 64))
is_hash _ = false

unfoldable pub create_hash : Text → Result ValidationError TransactionHash
unfolding is_hash
create_hash value =
    if text_eq value []
    then throws hash_required
    else if is_hash value
    then ok (record { value = value })
    else throws hash_malformed

abbrev IsHex : ℕ → Type 0
IsHex c = is_hex c ≡ true

all-IsHex : (s : Text) → (all is_hex s ≡ true) ↔ All IsHex s
all-IsHex [] = ((λ _. tt), (λ _. refl))
all-IsHex (c ∷ s) = ground (arith, all-IsHex s)

-- Odds are accepted exactly above one and up to a thousand, and are kept as they were given.
create_odds_iff :
    (n : Number) (o : Odds)
    → (create_odds n ≡ ok o) ↔ ((n ≡ thousandths o.value) × (1000 < o.value) × (o.value ≤ 1000000))
unfolding create_odds
create_odds_iff nan o = ((λ e. cc), (λ e. cc))
create_odds_iff below_zero o = ((λ e. cc), (λ e. cc))
create_odds_iff (thousandths n) o = ((λ e. ground arith), (λ e. ground arith))

-- A transaction hash is accepted exactly when it is `0x` followed by sixty-four hexadecimal digits,
-- and is kept letter for letter.
create_hash_iff :
    (s : Text) (h : TransactionHash)
    → (create_hash s ≡ ok h) ↔ (
        (h.value ≡ s)
        × ((digits : Text) × (s ≡ codes "0x" ++ digits) × (length digits ≡ 64) × All IsHex digits))
unfolding create_hash text_eq
create_hash_iff [] h = ((λ e. cc), (λ (v, (digits, e, l, a)). cc))
create_hash_iff (z ∷ []) h = ((λ e. cc), (λ (v, (digits, e, l, a)). cc))
create_hash_iff (z ∷ x ∷ digits) h = (
  (λ e. (ground arith, (digits, ground arith, ground arith, (all-IsHex digits).0 (ground arith)))),
  (λ (v, (rest, e, l, a)). ground (arith, (all-IsHex rest).1 a)),
)
