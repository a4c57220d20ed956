-- ===== src/BrokerShard/Answered.antt =====
-- `HandleforSequentialRequest`: an answer to a request for old blocks.
use blbchain.Base.{
  ℕ, ◌+◌, ◌-◌, ◌^◌, ◌%◌, ◌≤◌, ◌<◌, ◌≡◌, refl, false, none, some, Bytes, length, nat_beq, arith,
}
use blbchain.Core.Block.{Block}
use blbchain.Chain.State.{Library, BlockChain}
use blbchain.Pbft.Node.{SendOldMessage}
use blbchain.BrokerShard.{broker_sequential_request}

module _ (lib : Library) (decode : Bytes → Block) where
  swapped :
      (s e len : ℕ)
      → s ≤ e
      → e < 2 ^ 63
      → len ≡ e + 1 - s
      → nat_beq ((s + 2 ^ 64 - e) % 2 ^ 64) len ≡ false
  swapped s e len h small size = ground arith

  -- An answer that holds exactly the requests from its first height to its last, which is below 2 ^ 63 and
  -- not before the first, is refused as not enough by the broker module: no block is added and the
  -- sequence number is not set.
  pub broker_sequential_request-none :
      (som : SendOldMessage) (bc : BlockChain)
      → som.seq_start_height ≤ som.seq_end_height
      → som.seq_end_height < 2 ^ 63
      → length som.old_request ≡ som.seq_end_height + 1 - som.seq_start_height
      → broker_sequential_request lib decode som bc ≡ some (bc, none)
  unfolding broker_sequential_request
  broker_sequential_request-none som bc h small size =
      rw (swapped som.seq_start_height som.seq_end_height (length som.old_request) h small size)
        refl
