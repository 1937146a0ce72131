-- ===== src/Database/Schema.antt =====
-- apps/api/prisma/schema.prisma: the tables that the modelled services read and write, with the
-- columns that they read. A primary key is the key of its table; ids, instants (milliseconds),
-- currencies and ciphertexts are numbers; a missing instant is `none`. Of the append-only tables
-- for the notifications and the audit trail, the newest row stands first.
use make_we_bet.Prelude.{ℕ, Bool, Option, List, Table}
use make_we_bet.Contracts.{
  DifficultyTier, MarketType, ContestStatus, RiskProfile, FirstToScore, String, Event,
}
use make_we_bet.Difficulty.{SignalName}
use make_we_bet.Ledger.{Ledger}
use make_we_bet.Settlement.Prizes.{PayoutRow}

-- 'NGN'
abbrev pub ngn : ℕ
ngn = 0

pub data UserRole : Type 0 where
  role_user support contest_admin finance_admin super_admin : UserRole

pub data UserStatus : Type 0 where
  pending_verification active_user suspended banned : UserStatus

pub record User : Type 0 where
  pub email : String
  pub username : String
  pub phone : Option String
  pub password_hash : ℕ
  pub role : UserRole
  pub status : UserStatus
  pub created_at : ℕ
  pub email_verified_at : Option ℕ
  pub last_login_at : Option ℕ
  pub deleted_at : Option ℕ

-- A refresh token is kept as its hash.
pub record Session : Type 0 where
  pub user_id : ℕ
  pub family_id : ℕ
  pub refresh_token_hash : ℕ
  pub expires_at : ℕ
  pub consumed_at : Option ℕ
  pub revoked_at : Option ℕ

pub data OtpPurpose : Type 0 where
  email_verify password_reset withdrawal_otp login_otp : OtpPurpose

pub record OtpCode : Type 0 where
  pub user_id : ℕ
  pub purpose : OtpPurpose
  pub code_hash : ℕ
  pub attempts : ℕ
  pub expires_at : ℕ
  pub consumed_at : Option ℕ
  pub created_at : ℕ

pub record Contest : Type 0 where
  pub status : ContestStatus
  pub entry_fee_minor : ℕ
  pub currency : ℕ
  pub commission_bps : ℕ
  pub max_entries : Option ℕ
  pub lock_at : Option ℕ
  pub rule_set_id : ℕ
  pub payout_template_id : ℕ
  pub deleted_at : Option ℕ

pub record ContestMatch : Type 0 where
  pub contest_id : ℕ
  pub fixture_id : ℕ
  pub order : ℕ

pub record ContestSlot : Type 0 where
  pub contest_id : ℕ
  pub contest_match_id : ℕ
  pub slot_no : ℕ
  pub tier : DifficultyTier

pub data FixtureStatus : Type 0 where
  scheduled live finished postponed cancelled_fixture : FixtureStatus

pub record Fixture : Type 0 where
  pub league_id : ℕ
  pub home_team_id : ℕ
  pub away_team_id : ℕ
  pub kickoff_at : ℕ
  pub status : FixtureStatus
  pub home_goals : Option ℕ
  pub away_goals : Option ℕ
  pub ht_home_goals : Option ℕ
  pub ht_away_goals : Option ℕ
  pub first_to_score : Option FirstToScore
  pub result_finalized_at : Option ℕ

-- A row of LeagueProviderRef, TeamProviderRef or FixtureProviderRef, of the one provider that is
-- configured: the provider's id, and the id of the row that stands for it.
pub record ProviderRef : Type 0 where
  pub provider_ref : String
  pub target_id : ℕ

pub record League : Type 0 where
  pub name : String
  pub country : String

pub record Team : Type 0 where
  pub name : String

-- The breakdown of the signals is kept for display and is left out.
pub record FixtureDifficulty : Type 0 where
  pub stars : ℕ
  pub override_stars : Option ℕ
  pub weight_set_id : ℕ

-- A version's number is its place in the table, which `autoincrement` counts up.
pub record DifficultyWeightSet : Type 0 where
  pub weights : List (SignalName × ℕ)
  pub is_active : Bool

pub record RuleSet : Type 0 where
  pub is_active : Bool
  pub market_rules : List (MarketType × ℕ)

pub record PayoutTemplate : Type 0 where
  pub is_active : Bool
  pub structure : List PayoutRow

pub data EntryStatus : Type 0 where
  active refunded settled_entry : EntryStatus

pub record Entry : Type 0 where
  pub contest_id : ℕ
  pub user_id : ℕ
  pub status : EntryStatus
  pub submitted_at : ℕ
  pub fee_journal_id : ℕ
  pub total_points_x10 : ℕ
  pub correct_count : ℕ
  pub correct_expert : ℕ
  pub correct_hard : ℕ
  pub final_rank : Option ℕ
  pub prize_minor : ℕ
  pub risk_profile : RiskProfile
  pub risk_pct : Option ℕ

pub record Prediction : Type 0 where
  pub entry_id : ℕ
  pub slot_id : ℕ
  pub market_type : MarketType
  pub selection : String
  pub is_correct : Bool
  pub points_x10 : ℕ
  pub scored_at : Option ℕ

pub record BankAccount : Type 0 where
  pub user_id : ℕ
  pub bank_code : String
  pub account_number_enc : ℕ
  pub account_name : String
  pub deleted_at : Option ℕ

pub data WithdrawalStatus : Type 0 where
  requested under_review approved processing paid : WithdrawalStatus
  rejected failed reversed : WithdrawalStatus

pub record Withdrawal : Type 0 where
  pub user_id : ℕ
  pub bank_account_id : ℕ
  pub amount_minor : ℕ
  pub fraud_score : ℕ
  pub status : WithdrawalStatus
  pub reviewed_by_id : Option ℕ
  pub requested_at : ℕ
  pub resolved_at : Option ℕ

pub data PaymentStatus : Type 0 where
  initiated pending succeeded failed_payment : PaymentStatus

pub record PaymentIntent : Type 0 where
  pub user_id : ℕ
  pub amount_minor : ℕ
  pub status : PaymentStatus
  pub provider_ref : Option ℕ
  pub settled_at : Option ℕ

-- The `event` of a webhook; `other_event` is one that does not begin with `transfer.` either. Of
-- the events that do, the three that the domain events' worker tells apart.
pub data WebhookEventName : Type 0 where
  charge_success transfer_succeeded transfer_did_fail transfer_was_reversed : WebhookEventName
  other_event : ℕ → WebhookEventName

pub record WebhookEvent : Type 0 where
  pub event : WebhookEventName
  pub reference : Option ℕ
  pub processed_at : Option ℕ
  pub has_error : Bool

pub data Notice : Type 0 where
  prize_won contest_cancelled_notice withdrawal_paid_notice withdrawal_failed_notice : ℕ → Notice

pub data AuditAction : Type 0 where
  withdrawal_approve withdrawal_reject : ℕ → AuditAction
  rule_set_create rule_set_activate weight_set_create weight_set_activate : ℕ → AuditAction

-- What the relay reads of an event: whether it was handed to the queue, and how often that failed.
pub record OutboxEvent : Type 0 where
  pub event : Event
  pub published_at : Option ℕ
  pub attempts : ℕ

pub record Tally : Type 0 where
  pub total : ℕ
  pub correct : ℕ

pub record MonthTally : Type 0 where
  pub total : ℕ
  pub correct : ℕ
  pub points_x10 : ℕ

-- A breakdown lists its keys in the order in which they were first counted.
pub record UserStats : Type 0 where
  pub contests_played : ℕ
  pub contests_won : ℕ
  pub predictions_total : ℕ
  pub predictions_correct : ℕ
  pub total_points_x10 : ℕ
  pub highest_score_x10 : ℕ
  pub total_winnings_minor : ℕ
  pub current_streak : ℕ
  pub best_streak : ℕ
  pub market_breakdown : List (MarketType × Tally)
  pub league_breakdown : List (ℕ × Tally)
  pub monthly_breakdown : List (ℕ × MonthTally)

pub record Db : Type 0 where
  pub ledger : Ledger
  pub users : Table User
  pub sessions : Table Session
  pub otp_codes : Table OtpCode
  pub user_stats : Table UserStats
  pub contests : Table Contest
  pub contest_matches : Table ContestMatch
  pub contest_slots : Table ContestSlot
  pub fixtures : Table Fixture
  pub difficulties : Table FixtureDifficulty
  pub weight_sets : Table DifficultyWeightSet
  pub leagues : Table League
  pub teams : Table Team
  pub league_refs : List ProviderRef
  pub team_refs : List ProviderRef
  pub fixture_refs : List ProviderRef
  pub rule_sets : Table RuleSet
  pub payout_templates : Table PayoutTemplate
  pub entries : Table Entry
  pub predictions : Table Prediction
  pub bank_accounts : Table BankAccount
  pub withdrawals : Table Withdrawal
  pub payment_intents : Table PaymentIntent
  pub webhook_events : Table WebhookEvent
  pub outbox : Table OutboxEvent
  pub notifications : List (ℕ × Notice)
  pub audits : List (ℕ × AuditAction)
