-- ===== src/Message.antt =====
-- message/message.go: the 30 bytes of a message's type in front of its content. `none` is an index
-- out of range, at which the code panics.
pub mod Codec
mod Examples
use blbchain.Base.{
  ℕ, zero, suc, ◌+◌, Bool, true, false, not, Option, none, some, ◌>>=◌, List, [], ◌∷◌, ◌++◌, Bytes,
  ltb, nat_beq, if◌then◌else◌, length, set, take, drop, filterb, replicate,
}

abbrev pub prefix_msg_type_len : ℕ
prefix_msg_type_len = 30

-- The loop that writes the type's bytes from place `i` on.
unfoldable pub write_type : ℕ → Bytes → Bytes → Option Bytes
write_type i [] b = some b
write_type i (v ∷ vs) b =
    let rest = write_type (i + 1) vs (set b i v) in if ltb i (length b) then rest else none

unfoldable pub merge_message : Bytes → Bytes → Option Bytes
unfolding write_type
merge_message msg_type content = do
  b ← write_type 0 msg_type (replicate prefix_msg_type_len 0)
  some (b ++ content)

unfoldable pub split_message : Bytes → Option (Bytes × Bytes)
split_message message =
    if ltb (length message) prefix_msg_type_len
    then none
    else some (
      filterb (λ v. not (nat_beq v 0)) (take prefix_msg_type_len message),
      drop prefix_msg_type_len message,
    )
