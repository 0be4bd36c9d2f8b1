-- ===== src/Admin/Refunds.antt =====
-- `AdminService.IssueRefund` of services/admin_api/service/admin_service.go, and its handler.
use pay_fast_processor.Prelude.{
  ℕ, String, Bool, false, Option, none, some, List, [], ◌∷◌, ◌++◌, not, any, find, update, concat,
  ◌&&◌, ◌==◌, if◌then◌else◌,
}
use pay_fast_processor.Prelude.Int.{ℤ, eqb_ℤ}
use pay_fast_processor.Prelude.Decimal.{decimal}
use pay_fast_processor.Store.Schema.{
  Db, Payment, PaymentStatus, refunded, Refund, LedgerEntry, debit, credit, merchant_payable,
  is_processed,
}
use pay_fast_processor.Store.Sql
use pay_fast_processor.Store.Sql.{
  SqlError, no_rows, unique_violation, foreign_key_violation, Result, ok, err, Stmt, Query,
  constrained,
}
use pay_fast_processor.Runtime.Json.{
  Json, Error, message, unmarshal, text, text_field, number_field,
}
use pay_fast_processor.Runtime.World.{Env, World}
use pay_fast_processor.Runtime.Act.{
  Act, raise, wrapping, replacing, gets, ◌>>=◌, ◌>>◌, rolling_back, tx_query, tx_exec, begin,
  commit, nano_text,
}
use pay_fast_processor.Books.{account_of, has_merchant, insert_ledger_entry}
use pay_fast_processor.Gateway.Http.{Response, json, Handler, http_error, error_text}
use pay_fast_processor.Gateway.Auth.{test_merchant}

abbrev pub is_payment_of : String → String → Payment → Bool
is_payment_of id merchant_id p = p.id == id && p.merchant_id == merchant_id

abbrev pub status_and_amount : Option Payment → Result SqlError (PaymentStatus × ℤ)
status_and_amount none = err no_rows
status_and_amount (some p) = ok (p.status, p.amount)

-- `SELECT status, amount FROM payments WHERE id = $1 AND merchant_id = $2`.
unfoldable pub select_payment : String → String → Query (PaymentStatus × ℤ)
select_payment id merchant_id d = status_and_amount (find (is_payment_of id merchant_id) d.payments)

abbrev pub refund_constraints : Refund → Db → List (Bool × SqlError)
refund_constraints r d =
    (not (any (λ x. x.id == r.id) d.refunds), unique_violation)
    ∷ (any (λ p. p.id == r.payment_id) d.payments, foreign_key_violation)
    ∷ (has_merchant (some r.merchant_id) d, foreign_key_violation)
    ∷ []

unfoldable pub insert_refund : Refund → Stmt Unit
insert_refund r d =
    constrained (refund_constraints r d) (tt, record d { refunds = d.refunds ++ r ∷ [] })

abbrev pub refund_of : String → String → String → ℤ → ℕ → Refund
refund_of id payment_id merchant_id amount now = record {
  id = id;
  payment_id = payment_id;
  merchant_id = merchant_id;
  amount = amount;
  currency = "usd";
  status = "processed";
  created_at = now;
}

abbrev pub has_id : String → Payment → Bool
has_id id p = p.id == id

abbrev pub refund_payment : Payment → Payment
refund_payment p = record p { status = refunded }

-- `UPDATE payments SET status = 'refunded' WHERE id = $1`.
unfoldable pub mark_refunded : String → Stmt Unit
mark_refunded id d = ok (tt, record d { payments = update (has_id id) refund_payment d.payments })

-- The debit of the merchant's payable account, under "led_" and the time.
abbrev pub debit_entry : String → String → String → ℤ → ℕ → LedgerEntry
debit_entry nano account_id group amount now = record {
  id = concat "led_" nano;
  transaction_group_id = group;
  account_id = account_id;
  payment_id = none;
  entry_type = debit;
  amount = amount;
  currency = "usd";
  created_at = now;
}

-- The credit of the system account.
abbrev pub credit_entry : String → String → ℤ → ℕ → LedgerEntry
credit_entry nano group amount now = record {
  id = concat "led_" (concat nano "_2");
  transaction_group_id = group;
  account_id = "acc_system_01";
  payment_id = none;
  entry_type = credit;
  amount = amount;
  currency = "usd";
  created_at = now;
}

abbrev partial_refund : ℤ → ℤ → Error
partial_refund amount original = message (
    concat "partial refunds not yet supported via admin UI (requested "
      (concat (decimal amount) (concat ", original " (concat (decimal original) ")"))))

module _ (env : Env) (merchant_id payment_id : String) (amount : ℤ) where
  -- Both ledger entries.
  unfoldable pub post_entries : String → ℕ → Act Unit
  post_entries refund_id now = do
    account ←
        wrapping "failed to find merchant account"
          (tx_query env (account_of merchant_payable merchant_id "usd"))
    debit_nano ← nano_text env
    wrapping "failed ledger debit" (
        tx_exec env (
          insert_ledger_entry
            (debit_entry debit_nano account (concat "tx_ref_" refund_id) amount now)))
    credit_nano ← nano_text env
    wrapping "failed ledger credit" (
        tx_exec env
          (insert_ledger_entry (credit_entry credit_nano (concat "tx_ref_" refund_id) amount now)))

  -- What follows the checks.
  unfoldable pub write_refund : ℕ → Act Unit
  write_refund now = do
    nano ← nano_text env
    wrapping "failed to insert refund" (
        tx_exec env
          (insert_refund (refund_of (concat "ref_" nano) payment_id merchant_id amount now)))
    wrapping "failed to update payment" (tx_exec env (mark_refunded payment_id))
    post_entries (concat "ref_" nano) now
    commit env

  unfoldable pub check_refund : PaymentStatus × ℤ → ℕ → Act Unit
  check_refund (status, original) now =
      if is_processed status
      then if eqb_ℤ amount original
        then write_refund now
        else raise (partial_refund amount original)
      else raise (message "can only refund processed payments")

  unfoldable pub refund : Act Unit
  refund = do
    now ← gets (λ w. w.now)
    found ← replacing "payment not found" (tx_query env (select_payment payment_id merchant_id))
    check_refund found now

  -- `AdminService.IssueRefund`.
  unfoldable pub issue_refund : Act Unit
  issue_refund = do begin env; rolling_back refund

pub record RefundRequest : Type 0 where
  pub payment_id : String
  pub amount : ℤ

unfoldable pub decode_refund : Option Json → Result Error RefundRequest
decode_refund none = err unmarshal
decode_refund (some o) =
    Sql.◌>>=◌ (text_field "payment_id" o)
      λ p. Sql.◌>>=◌ (number_field "amount" o) λ a. ok (record { payment_id = p; amount = a })

module _ (env : Env) where
  abbrev refund_answer : Result Error Unit → Response
  refund_answer (ok _) = record {
    status = 200;
    body = json (("status", text "success") ∷ []);
    replayed = false;
  }
  refund_answer (err e) = http_error (error_text env e) 500

  abbrev pub refund_decoded : Result Error RefundRequest → World → Response × World
  refund_decoded (err e) w = (http_error "Invalid payload" 400, w)
  refund_decoded (ok req) w =
      let (result, w') = issue_refund env test_merchant req.payment_id req.amount w in
      (refund_answer result, w')

  -- `AdminHandler.IssueRefund`.
  unfoldable pub handle_refund : Handler
  handle_refund r w = refund_decoded (decode_refund r.body) w
