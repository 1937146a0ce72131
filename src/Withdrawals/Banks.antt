-- ===== src/Withdrawals/Banks.antt =====
-- BankAccountsService of apps/api/src/modules/withdrawals/bank-accounts.service.ts. The encryption
-- of infrastructure/crypto is a parameter.
use make_we_bet.Prelude.{
  ℕ, Bool, true, false, ◌&&◌, Option, none, some, List, ◌==◌, lookup, insert, fresh, select,
}
use make_we_bet.Errors.{Result, bank_account_not_found}
use make_we_bet.Contracts.{String}
use make_we_bet.Database.{BankAccount, Db, Action, ◌>>=◌, ◌>>◌, return, tables, write, lift, found}
use make_we_bet.Wallet.{is_null}

abbrev pub owns : ℕ → BankAccount → Bool
owns user a = (a.user_id == user) && is_null a.deleted_at

-- `where: { id, userId, deletedAt: null }`
abbrev pub owned : ℕ → Option BankAccount → Option BankAccount
owned user none = none
owned user (some a) = elim (owns user a) [ true ↦ some a | false ↦ none ]

unfoldable pub add_bank_account : (ℕ → ℕ) → ℕ → String → ℕ → String → Action ℕ
add_bank_account encrypt user bank_code account_number account_name = do
  db ← tables
  write λ db. record db {
    bank_accounts =
        insert (fresh db.bank_accounts)
          (record {
            user_id = user;
            bank_code = bank_code;
            account_number_enc = encrypt account_number;
            account_name = account_name;
            deleted_at = none;
          })
          db.bank_accounts;
  }
  return (fresh db.bank_accounts)

unfoldable pub list_bank_accounts : ℕ → Db → List (ℕ × BankAccount)
list_bank_accounts user db = select (owns user) db.bank_accounts

unfoldable pub remove_bank_account : ℕ → ℕ → ℕ → Action Unit
remove_bank_account now user id = do
  db ← tables
  a ← found (owned user (lookup id db.bank_accounts)) bank_account_not_found
  write λ db. record db {
    bank_accounts = insert id (record a { deleted_at = some now }) db.bank_accounts;
  }

-- The account and its number in plain text.
unfoldable pub decrypted_for : (ℕ → Result ℕ) → ℕ → ℕ → Action (BankAccount × ℕ)
decrypted_for decrypt user id = do
  db ← tables
  a ← found (owned user (lookup id db.bank_accounts)) bank_account_not_found
  number ← lift (decrypt a.account_number_enc)
  return (a, number)
