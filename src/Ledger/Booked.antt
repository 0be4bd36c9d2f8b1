-- ===== src/Ledger/Booked.antt =====
-- What it means that an event is booked.
use pay_fast_processor.Prelude.{ℕ, String, some, [], ◌∷◌, ◌++◌, ◌≡◌, find, update, ◌∙◌, ◌⊎◌}
use pay_fast_processor.Prelude.Int.{pos, ◌<ℤ◌}
use pay_fast_processor.Store.Schema.{Db, Payment, LedgerEntry, merchant_payable}
use pay_fast_processor.Runtime.World.{World, Message, idle}
use pay_fast_processor.Books.Balance.{IsPair}
use pay_fast_processor.Books.Accounts.{HasAccount}
use pay_fast_processor.Ledger.{PaymentEvent, has_id, initiate, system_account_id, webhook_event}

-- The tables that booking does not write.
abbrev pub SameElsewhere : Db → Db → Type 0
SameElsewhere d0 d =
    (d.settlements ≡ d0.settlements)
    × (d.refunds ≡ d0.refunds)
    × (d.merchants ≡ d0.merchants)
    × (d.payment_methods ≡ d0.payment_methods)
    × (d.idempotency_keys ≡ d0.idempotency_keys)
    × (d.subscriptions ≡ d0.subscriptions)
    × (d.invoices ≡ d0.invoices)

module _ (event : PaymentEvent) (now : ℕ) (d0 : Db) where
  -- The payment is found and marked.
  pub record Marked (merchant_id : String) (d : Db) : Type 0 where
    pub payment : Payment
    pub found : find (has_id event.payment_id) d0.payments ≡ some payment
    pub merchant : payment.merchant_id ≡ merchant_id
    pub payments : d.payments ≡ update (has_id event.payment_id) (initiate now) d0.payments
    pub elsewhere : SameElsewhere d0 d

  -- Nothing is booked yet.
  abbrev pub IsMarked : String → Db → Type 0
  IsMarked m d = Marked m d × (d.ledger_entries ≡ d0.ledger_entries)

  -- The entry is the given side of this event.
  pub record IsSide (e : LedgerEntry) : Type 0 where
    pub amount : e.amount ≡ event.amount
    pub currency : e.currency ≡ event.currency
    pub payment_id : e.payment_id ≡ some event.payment_id

  -- Both entries are there.
  pub record Posted (d : Db) : Type 0 where
    pub merchant_id : String
    pub marked : Marked merchant_id d
    pub debited : LedgerEntry
    pub credited : LedgerEntry
    pub entries : d.ledger_entries ≡ d0.ledger_entries ++ debited ∷ credited ∷ []
    pub pair : IsPair debited credited
    pub side : IsSide credited
    pub debit_payment : debited.payment_id ≡ some event.payment_id
    pub positive : pos 0 <ℤ event.amount
    pub system : debited.account_id ≡ system_account_id
    pub payable : HasAccount merchant_payable merchant_id event.currency credited.account_id d

-- Marked still holds after a statement that leaves the payments and the other tables.
pub Marked-same :
    (event : PaymentEvent) (now : ℕ) (d0 : Db) {m : String} {d d' : Db}
    → Marked event now d0 m d
    → d'.payments ≡ d.payments
    → SameElsewhere d d'
    → Marked event now d0 m d'
Marked-same event now d0 h same (a, b, c, e, f, g, k) =
    let r = h.elsewhere in
    record {
      payment = h.payment;
      found = h.found;
      merchant = h.merchant;
      payments = same ∙ h.payments;
      elsewhere = (a ∙ r.0, b ∙ r.1, c ∙ r.2, e ∙ r.3, f ∙ r.4, g ∙ r.5, k ∙ r.6);
    }

abbrev pub announcement : PaymentEvent → Message
announcement event = record { key = event.payment_id; value = some (webhook_event event) }

module _ (w0 : World) (event : PaymentEvent) where
  -- The event is booked, and its webhook event is published or the publication failed.
  pub record Booked (w : World) : Type 0 where
    pub tx : w.tx ≡ idle
    pub posted : Posted event w0.now w0.db w.db
    pub cache : w.cache ≡ w0.cache
    pub payment_events : w.payment_events ≡ w0.payment_events
    pub now : w.now ≡ w0.now
    pub webhook_events :
        (w.webhook_events ≡ w0.webhook_events)
        ⊎ (w.webhook_events ≡ w0.webhook_events ++ announcement event ∷ [])
