-- ===== src/Pipeline/Message.antt =====
-- source/pipeline/Message.h: a message of 37 bits of flags, over which a word of 32 bits lies, and a
-- pointer. The first bit field stands in the lowest bits.
pub mod Word
mod Tests
use api_pack.Base.{ℕ, ◌+◌, ◌*◌, ◌%◌, ◌^◌, Bool, Option, ◌==◌}

pub data PublicMsgType : Type 0 where
  update open_request close_request terminate : PublicMsgType

unfoldable pub number : PublicMsgType → ℕ
number update = 0
number open_request = 1
number close_request = 2
number terminate = 3

pub record PublicMsgFlags : Type 0 where
  pub destroy : ℕ
  pub msg_type : ℕ
  pub id : ℕ

-- The union's `value`.
unfoldable pub value : PublicMsgFlags → ℕ
value f = (f.destroy + 2 * f.msg_type + 32 * f.id) % 2 ^ 32

pub record PublicMsg : Type 0 where
  pub flags : PublicMsgFlags
  pub ptr_data : Option ℕ

unfoldable pub should_destroy : PublicMsg → Bool
should_destroy m = (m.flags).destroy == 1

-- `type()` casts the four bits, so it may be none of the enumeration's values.
unfoldable pub message_type : PublicMsg → ℕ
message_type m = (m.flags).msg_type

unfoldable pub message_id : PublicMsg → ℕ
message_id m = (m.flags).id
