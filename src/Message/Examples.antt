-- ===== src/Message/Examples.antt =====
-- An input at which the round trip applies.
use blbchain.Base.{◌≡◌, some, [], ◌∷◌, Bytes, arith}
use blbchain.Message.{merge_message, split_message}
use blbchain.Message.Codec.{split_message-merge_message}

-- "stop"
abbrev stop_type : Bytes
stop_type = 115 ∷ 116 ∷ 111 ∷ 112 ∷ []

split_message-merge_message_example :
    (m : Bytes) × (merge_message stop_type (0 ∷ 7 ∷ []) ≡ some m)
    × (split_message m ≡ some (stop_type, 0 ∷ 7 ∷ []))
split_message-merge_message_example =
    split_message-merge_message stop_type (0 ∷ 7 ∷ []) (omega arith) (omega arith)
