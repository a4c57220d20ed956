-- ===== src/Core/Transaction.antt =====
-- core/transaction.go. A time is a number of nanoseconds, and 0 is Go's zero time; values are not
-- negative, as the data set's are.
use blbchain.Base.{ℕ, String, Bool, false, Bytes, []}

pub record Transaction : Type 0 where
  pub sender : String
  pub recipient : String
  pub nonce : ℕ
  pub signature : Bytes
  pub value : ℕ
  pub tx_hash : Bytes
  pub time : ℕ
  pub relayed : Bool
  pub has_broker : Bool
  pub sender_is_broker : Bool
  pub original_sender : String
  pub final_recipient : String
  pub raw_tx_hash : Bytes

-- `NewTransaction`. `hash` is the SHA-256 of the library's encoding of the fields set so far.
unfoldable pub new_transaction : (Transaction → Bytes) → String → String → ℕ → ℕ → ℕ → Transaction
new_transaction hash sender recipient value nonce time =
    let tx : Transaction = record {
      sender = sender;
      recipient = recipient;
      nonce = nonce;
      signature = [];
      value = value;
      tx_hash = [];
      time = time;
      relayed = false;
      has_broker = false;
      sender_is_broker = false;
      original_sender = "";
      final_recipient = "";
      raw_tx_hash = [];
    } in
    record tx { tx_hash = hash tx }
