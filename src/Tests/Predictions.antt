-- ===== src/Tests/Predictions.antt =====
-- Predictions and their settlement at concrete inputs.
use chiliztv_com.Base.{
  ℕ, ◌≤◌, ◌<◌, String, Bool, true, false, Option, none, some, List, [], ◌∷◌, ◌++◌, ◌≡◌, refl, ◌↔◌,
  ◌⊎◌, inl, inr, Among, All, Result, ok, throws, arith, is_ok, is_some, codes, Text, length, str_eq,
  if◌then◌else◌,
}
use chiliztv_com.Predictions.Values.{
  Odds, TransactionHash, thousandths, create_odds, create_hash, odds_too_large,
}
use chiliztv_com.Predictions.Entity.{Prediction, pending, won, create}
use chiliztv_com.Predictions.Entity.Lifecycle.{
  Call, settles, cancels, marks, perform, run, IsSettledOnce,
}
use chiliztv_com.Predictions.Settlement.{Ports, execute}
use chiliztv_com.Predictions.Settlement.Run.{SettledAs, execute_settles}
use chiliztv_com.Tests.Matches.{full_time}

abbrev sixteen : Text
sixteen = codes "0123456789abcDEF"

abbrev hash_digits : Text
hash_digits = sixteen ++ (sixteen ++ (sixteen ++ sixteen))

abbrev hash : TransactionHash
hash = record { value = codes "0x" ++ hash_digits }

hash-accepted : create_hash (codes "0x" ++ hash_digits) ≡ ok hash
unfolding create_hash chiliztv_com.Base.text_eq
hash-accepted = refl

abbrev evens : Odds
evens = record { value = 2000 }

odds-refused : create_odds (thousandths 1000001) ≡ throws odds_too_large
unfolding create_odds
odds-refused = refl

abbrev bet : Prediction
bet = record {
  id = "p1";
  user_id = "u1";
  wallet_address = "0xab";
  username = "ana";
  match_id = 7;
  match_name = "Lens vs Nice";
  prediction_type = "WIN_HOME";
  prediction_value = "home";
  predicted_team = "Lens";
  odds = evens;
  status = pending;
  actual_result = none;
  transaction_hash = hash;
  placed_at = 10;
  match_start_time = 1000000;
  settled_at = none;
  created_at = 10;
  updated_at = 10;
}

bet-created : is_ok (create 10 bet) ≡ true
unfolding create
bet-created = refl

abbrev history : List Call
history = marks 20 ∷ settles 30 31 "WIN_HOME" true ∷ cancels 40 ∷ []

history-runs : (run history bet).status ≡ won
unfolding run perform
history-runs = refl

bet-IsSettledOnce : IsSettledOnce bet
bet-IsSettledOnce = ground arith

-- One match at full time, whose writes succeed.
abbrev ports : Ports
ports = record {
  Failure = String;
  find_match = λ n. ok (some full_time);
  write = λ q. true;
  clock = λ q. (50, 51);
}

ports-run : (execute ports (bet ∷ [])).0 ≡ 1
unfolding execute chiliztv_com.Predictions.Entity.settle
ports-run = refl

execute_settles_example :
    ((execute ports (bet ∷ [])).0 ≡ length (execute ports (bet ∷ [])).1)
    × (Among bet (execute ports (bet ∷ [])).1
        ↔ ((p : Prediction) × Among p (bet ∷ []) × SettledAs ports p bet))
execute_settles_example = execute_settles ports (bet ∷ []) bet
