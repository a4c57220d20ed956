-- ===== src/Migration/Moved.antt =====
-- The state after `accountTransfer_do`: where each account lives, and what its state is.
use blbchain.Base.{nat_eq, bytes_eq}
