-- ===== src/Committee/Dataset.antt =====
-- `MsgSendingControl` of the relay committee over the whole data set.
use blbchain.Base.{
  ℕ, suc, ◌+◌, ◌-◌, ◌<◌, ◌≤◌, ◌≡◌, refl, sym, ap, ◌∙◌, String, Bool, true, false, ◌||◌, Option,
  none, some, ◌>>=◌, List, [], ◌∷◌, ◌++◌, append_assoc, append-nil, inl, inr, Bool-cases, nat_beq,
  nat_beq_iff, length, take, filterb, Gives, Gives-bind, Gives-map, arith,
}
use blbchain.Core.Transaction.{Transaction}
use blbchain.Committee.{InjectTxs, DataLibrary, data2tx, Reading, msg_sending_control, tx_sending}
use blbchain.Committee.Sending.{sent_to, tx_sending-filterb}

-- All that a run sends to a shard, in order.
unfoldable pub sent_all : ℕ → List (List InjectTxs) → List Transaction
unfolding sent_to
sent_all sid [] = []
sent_all sid (msgs ∷ later) = sent_to sid msgs ++ sent_all sid later

pub filterb-append :
    {A : Type 0} (p : A → Bool) (xs ys : List A)
    → filterb p (xs ++ ys) ≡ filterb p xs ++ filterb p ys
filterb-append p [] ys = refl
filterb-append p (x ∷ xs) ys = elim (Bool-cases (p x)) [
  | inl t ↦ rw (t, filterb-append p xs ys) refl
  | inr f ↦ rw (f, filterb-append p xs ys) refl
]

-- The rows can be read, and those that hold a transaction hold these, the first of which gets the nonce.
pub data Reads (lib : DataLibrary)
    : List (Option (List String)) → ℕ → List Transaction → Type 0 where
  at_end : {k : ℕ} → Reads lib [] k []
  skipped :
      {row : List String} {rows : List (Option (List String))} {k : ℕ} {txs : List Transaction}
      → data2tx lib row k ≡ some none
      → Reads lib rows k txs
      → Reads lib (some row ∷ rows) k txs
  taken :
      {row : List String} {rows : List (Option (List String))} {k : ℕ} {tx : Transaction}
      {txs : List Transaction}
      → data2tx lib row k ≡ some (some tx)
      → Reads lib rows (k + 1) txs
      → Reads lib (some row ∷ rows) k (tx ∷ txs)

module _ (lib : DataLibrary) (send : List Transaction → Option (List InjectTxs))
    (batch total sid : ℕ) (p : Transaction → Bool)
    (sends : (txs : List Transaction)
      → Gives (λ msgs. sent_to sid msgs ≡ filterb p txs) (send txs)) where
  abbrev AllSent : List Transaction → List (List InjectTxs) → Type 0
  AllSent txs batches = sent_all sid batches ≡ filterb p txs

  last_sent :
      (l tail : List Transaction) (sent : List InjectTxs)
      → sent_to sid sent ≡ filterb p l
      → tail ≡ []
      → sent_to sid sent ++ [] ≡ filterb p (l ++ tail)
  last_sent l tail sent e none_left =
      rw (none_left, append-nil l) (append-nil (sent_to sid sent) ∙ e)

  -- After a row: perhaps a batch is sent, and perhaps it was the last row.
  after_row :
      (full last : Bool) (r : Reading) (rows : List (Option (List String)))
      (tail : List Transaction)
      → (last ≡ true → tail ≡ [])
      → (last ≡ false
          → (l : List Transaction)
          → Gives
              (AllSent (l ++ tail))
              (msg_sending_control lib send batch total rows (record r { txlist = l })))
      → Gives (AllSent (r.txlist ++ tail)) (elim (full || last) [
        | true ↦ send r.txlist >>= λ sent. elim last [
          | true ↦ some (sent ∷ [])
          | false ↦
              msg_sending_control lib send batch total rows (record r { txlist = [] }) >>= λ later.
              some (sent ∷ later)
        ]
        | false ↦ msg_sending_control lib send batch total rows r
      ])
  unfolding sent_all
  after_row true true r rows tail ends rec =
      Gives-bind _ (AllSent (r.txlist ++ tail)) (send r.txlist) _ (sends r.txlist)
        (λ sent e. last_sent r.txlist tail sent e (ends refl))
  after_row false true r rows tail ends rec =
      Gives-bind _ (AllSent (r.txlist ++ tail)) (send r.txlist) _ (sends r.txlist)
        (λ sent e. last_sent r.txlist tail sent e (ends refl))
  after_row true false r rows tail ends rec =
      Gives-bind _ (AllSent (r.txlist ++ tail)) (send r.txlist) _ (sends r.txlist) (λ sent e.
        Gives-bind (AllSent tail) (AllSent (r.txlist ++ tail))
          (msg_sending_control lib send batch total rows (record r { txlist = [] })) _ (rec refl [])
          (λ later e'. rw (e, e') (sym (filterb-append p r.txlist tail))))
  after_row false false r rows tail ends rec = rec refl r.txlist

  pub msg_sending_control-AllSent :
      (rows : List (Option (List String))) (k : ℕ) (txs l : List Transaction)
      → Reads lib rows k txs
      → k < total
      → total ≤ k + length txs
      → Gives
          (AllSent (l ++ take (total - k) txs))
          (msg_sending_control lib send batch total rows (record { txlist = l; now_data_num = k }))
  unfolding msg_sending_control
  msg_sending_control-AllSent [] k [] l at_end small enough = absurd (omega arith)
  msg_sending_control-AllSent [] k (tx ∷ txs) l reads small enough = elim reads [ ]
  msg_sending_control-AllSent (none ∷ rows) k txs l reads small enough = elim reads [ ]
  msg_sending_control-AllSent (some row ∷ rows) k txs l (skipped e reads) small enough = rw e (
      after_row (nat_beq (length l) batch) (nat_beq k total)
        (record { txlist = l; now_data_num = k }) rows (take (total - k) txs)
        (λ h. absurd (omega (arith, (nat_beq_iff k total).0 h)))
        (λ _ l'. msg_sending_control-AllSent rows k txs l' reads small enough))
  msg_sending_control-AllSent (some row ∷ rows) k (tx ∷ txs) l (taken e reads) small enough =
      rw (e, one_more)
        (Gives-map (AllSent (l ++ tx ∷ [] ++ take (total - (k + 1)) txs))
          (AllSent (l ++ (tx ∷ take (total - (k + 1)) txs))) _
          (after_row (nat_beq (length (l ++ tx ∷ [])) batch) (nat_beq (k + 1) total)
            (record { txlist = l ++ tx ∷ []; now_data_num = k + 1 }) rows
            (take (total - (k + 1)) txs)
            (λ h. ap (λ n. take n txs) (none_left ((nat_beq_iff (k + 1) total).0 h)))
            (λ h l'.
              msg_sending_control-AllSent rows (k + 1) txs l' reads (ground arith) (omega arith)))
          (λ batches sent.
            sent ∙ ap (filterb p) (append_assoc l (tx ∷ []) (take (total - (k + 1)) txs))))
    where
      one_more : total - k ≡ suc (total - (k + 1))
      one_more = omega arith

      none_left : k + 1 ≡ total → total - (k + 1) ≡ 0
      none_left h = omega arith

-- Where the rows of the data set can be read and hold at least as many transactions as are to be sent, of
-- which there is one at least, with a positive injection speed: what MsgSendingControl sends to a shard
-- that exists, over all batches and injections, is exactly those of the first transactions, as many as are
-- to be sent, that are routed to it, in order.
pub msg_sending_control-take :
    (lib : DataLibrary) (shard_num inject_speed batch total sid : ℕ) (route : Transaction → ℕ)
    (rows : List (Option (List String))) (txs : List Transaction)
    → Reads lib rows 0 txs
    → 0 < total
    → total ≤ length txs
    → 0 < inject_speed
    → sid < shard_num
    → Gives
        (λ batches. sent_all sid batches ≡ filterb (λ tx. nat_beq (route tx) sid) (take total txs))
        (msg_sending_control lib
          (tx_sending shard_num inject_speed route)
          batch
          total
          rows
          (record { txlist = []; now_data_num = 0 }))
msg_sending_control-take lib shard_num inject_speed batch total sid route rows txs reads some_data
      enough fast small =
    Gives-map _
      (λ batches. sent_all sid batches ≡ filterb (λ tx. nat_beq (route tx) sid) (take total txs)) _
      (msg_sending_control-AllSent lib (tx_sending shard_num inject_speed route) batch total sid
        (λ tx. nat_beq (route tx) sid)
        (λ txs. tx_sending-filterb shard_num inject_speed route sid txs fast small) rows 0 txs []
        reads some_data (omega arith))
      (λ batches e. e ∙ ap (λ n. filterb (λ tx. nat_beq (route tx) sid) (take n txs)) all)
  where
    all : total - 0 ≡ total
    all = omega arith
