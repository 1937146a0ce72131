-- ===== src/Wallet.antt =====
-- WalletAccountsService of apps/api/src/modules/wallet/wallet-accounts.service.ts.
use make_we_bet.Prelude.{ℕ, Bool, true, false, ◌&&◌, Option, none, some, ◌==◌, Table, first?}
use make_we_bet.Errors.{wallet_not_found, system_account_missing, escrow_missing}
use make_we_bet.Ledger.{
  AccountType, user_available, user_withdrawal_pending, contest_escrow, platform_revenue,
  gateway_clearing, external, Account,
}
use make_we_bet.Database.{ngn, Action, found, ◌>>=◌, tables}

-- The positions of the members, by which they are compared.
abbrev type_index : AccountType → ℕ
type_index user_available = 0
type_index user_withdrawal_pending = 1
type_index contest_escrow = 2
type_index platform_revenue = 3
type_index gateway_clearing = 4
type_index external = 5

abbrev pub is_null : Option ℕ → Bool
is_null none = true
is_null (some _) = false

abbrev pub is_some_of : ℕ → Option ℕ → Bool
is_some_of k none = false
is_some_of k (some j) = j == k

-- `where: { userId_type_currency: { userId, type, currency } }`
abbrev pub is_wallet_of : ℕ → AccountType → ℕ → Account → Bool
is_wallet_of user type currency a =
    is_some_of user a.user_id
    && ((type_index a.type == type_index type) && (a.currency == currency))

abbrev pub find_wallet : ℕ → AccountType → ℕ → Table Account → Option (ℕ × Account)
find_wallet user type currency t = first? (is_wallet_of user type currency) t

abbrev is_system : AccountType → Account → Bool
is_system type a =
    (type_index a.type == type_index type)
    && (is_null a.user_id && (is_null a.contest_id && (a.currency == ngn)))

abbrev pub find_system : AccountType → Table Account → Option (ℕ × Account)
find_system type t = first? (is_system type) t

-- `where: { contestId }`
abbrev pub find_escrow : ℕ → Table Account → Option (ℕ × Account)
find_escrow contest t = first? (λ a. is_some_of contest a.contest_id) t

abbrev pub user_wallet : ℕ → Action (ℕ × Account)
user_wallet user = do
  db ← tables
  found (find_wallet user user_available ngn db.ledger.accounts) wallet_not_found

abbrev pub system : AccountType → Action (ℕ × Account)
system type = do db ← tables; found (find_system type db.ledger.accounts) system_account_missing

abbrev pub escrow_of : ℕ → Action (ℕ × Account)
escrow_of contest = do db ← tables; found (find_escrow contest db.ledger.accounts) escrow_missing
