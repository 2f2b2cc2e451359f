-- ===== src/Protocol.antt =====
-- crates/graphrefly/src/protocol.rs: the tiers and the eleven kinds of message. An erased value
-- (`AnyValue`) is a type parameter; an error is its `Display` text.
use graphrefly_rs.Prelude.{ℕ, String, Bool, true, false, not, Option, List, ltb}

-- `LockId(String)`.
abbrev pub LockId : Type 0
LockId = String

pub record PullDemand {ℓ} (A : Type ℓ) : Type ℓ where
  pub pull_id : LockId
  pub params : Option A

pub data Tier : Type 0 where
  start control notification value settle terminal teardown : Tier

abbrev pub as_u8 : Tier → ℕ
as_u8 Tier.start = 0
as_u8 Tier.control = 1
as_u8 Tier.notification = 2
as_u8 Tier.value = 3
as_u8 Tier.settle = 4
as_u8 Tier.terminal = 5
as_u8 Tier.teardown = 6

unfoldable pub is_immediate : Tier → Bool
is_immediate t = ltb (as_u8 t) (as_u8 Tier.value)

unfoldable pub is_batch_deferred : Tier → Bool
unfolding is_immediate
is_batch_deferred t = not (is_immediate t)

unfoldable pub is_pause_buffered : Tier → Bool
is_pause_buffered Tier.value = true
is_pause_buffered Tier.settle = true
is_pause_buffered _ = false

-- `Message::Data` is `datum`, since `data` is a reserved word.
pub data Message {ℓ} (A : Type ℓ) : Type ℓ where
  start : Message A
  pause : LockId → Message A
  resume : LockId → Message A
  pull : PullDemand A → Message A
  dirty : Message A
  datum : A → Message A
  resolved : Message A
  invalidate : Message A
  complete : Message A
  error : String → Message A
  teardown : Message A

abbrev pub Wave {ℓ} : Type ℓ → Type ℓ
Wave A = List (Message A)

module _ {ℓ} {A : Type ℓ} where
  unfoldable pub tier : Message A → Tier
  tier Message.start = Tier.start
  tier (Message.pause l) = Tier.control
  tier (Message.resume l) = Tier.control
  tier (Message.pull d) = Tier.control
  tier Message.dirty = Tier.notification
  tier (Message.datum v) = Tier.value
  tier Message.resolved = Tier.value
  tier Message.invalidate = Tier.settle
  tier Message.complete = Tier.terminal
  tier (Message.error e) = Tier.terminal
  tier Message.teardown = Tier.teardown

  unfoldable pub is_up_allowed : Message A → Bool
  is_up_allowed Message.dirty = true
  is_up_allowed (Message.pause l) = true
  is_up_allowed (Message.resume l) = true
  is_up_allowed (Message.pull d) = true
  is_up_allowed Message.invalidate = true
  is_up_allowed Message.teardown = true
  is_up_allowed _ = false
