-- ===== src/Examples.antt =====
-- The theorems at concrete inputs, which are shared here.
mod Money
mod Prizes
mod Services
mod Contests
mod Accounts
mod Football
mod Admin
use make_we_bet.Prelude.{ℕ, Option, none, some, List, [], ◌∷◌, ℤ, pos, negsuc, Table}
use make_we_bet.Ledger.{
  Account, AccountType, user_available, contest_escrow, gateway_clearing, Ledger,
}
use make_we_bet.Contracts.{
  easy, medium, hard, expert, DifficultyTier, match_winner, double_chance, over_under_25, btts,
  first_half_winner, winning_margin, clean_sheet, exact_goals, correct_score, MarketType, String,
}
use make_we_bet.Slip.{SlotDefinition, SlipPrediction}
use make_we_bet.Database.{Db}

abbrev pub account : AccountType → Option ℕ → Option ℕ → ℤ → Account
account type user contest balance = record {
  type = type;
  user_id = user;
  contest_id = contest;
  currency = 0;
  balance_minor = balance;
}

-- The wallet of user 7, the escrow of contest 3 and the gateway's clearing account.
abbrev pub some_ledger : Ledger
some_ledger = record {
  accounts =
      (0, account user_available (some 7) none (pos 800))
      ∷ (1, account contest_escrow none (some 3) (pos 0))
      ∷ (2, account gateway_clearing none none (negsuc 799))
      ∷ [];
  journal = [];
  next_entry = 0;
}

abbrev pub empty_db : Ledger → Db
empty_db l = record {
  ledger = l;
  users = [];
  sessions = [];
  otp_codes = [];
  user_stats = [];
  contests = [];
  contest_matches = [];
  contest_slots = [];
  fixtures = [];
  difficulties = [];
  weight_sets = [];
  leagues = [];
  teams = [];
  league_refs = [];
  team_refs = [];
  fixture_refs = [];
  rule_sets = [];
  payout_templates = [];
  entries = [];
  predictions = [];
  bank_accounts = [];
  withdrawals = [];
  payment_intents = [];
  webhook_events = [];
  outbox = [];
  notifications = [];
  audits = [];
}

abbrev slot : ℕ → DifficultyTier → SlotDefinition
slot id tier = record { slot_id = id; tier = tier }

abbrev pub ten_slots : List SlotDefinition
ten_slots =
    slot 1 easy
    ∷ slot 2 easy
    ∷ slot 3 medium
    ∷ slot 4 medium
    ∷ slot 5 medium
    ∷ slot 6 hard
    ∷ slot 7 hard
    ∷ slot 8 hard
    ∷ slot 9 expert
    ∷ slot 10 expert
    ∷ []

abbrev pick : ℕ → MarketType → String → SlipPrediction
pick id market selection = record { slot_id = id; market_type = market; selection = selection }

abbrev pub ten_picks : List SlipPrediction
ten_picks =
    pick 1 match_winner "HOME"
    ∷ pick 2 match_winner "DRAW"
    ∷ pick 3 btts "YES"
    ∷ pick 4 btts "NO"
    ∷ pick 5 first_half_winner "AWAY"
    ∷ pick 6 clean_sheet "HOME"
    ∷ pick 7 clean_sheet "NONE"
    ∷ pick 8 clean_sheet "BOTH"
    ∷ pick 9 correct_score "2-1"
    ∷ pick 10 correct_score "0-0"
    ∷ []
