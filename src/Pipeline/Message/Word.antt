-- ===== src/Pipeline/Message/Word.antt =====
-- What the word `value` of Message.h holds of the flags.
use api_pack.Base.{◌%◌, ◌^◌, ◌<◌, ◌≡◌, ◌↔◌, arith, ap, ◌==◌}
use api_pack.Pipeline.Message.{
  PublicMsgFlags, PublicMsg, value, should_destroy, message_type, message_id,
}

-- Each bit field is in its range.
pub record Fits (f : PublicMsgFlags) : Type 0 where
  pub destroy_bit : f.destroy < 2
  pub type_bits : f.msg_type < 2 ^ 4
  pub id_bits : f.id < 2 ^ 32

same_bits :
    (m n : PublicMsgFlags)
    → Fits m
    → Fits n
    → value m ≡ value n
    → (m.destroy ≡ n.destroy) × (m.msg_type ≡ n.msg_type) × (m.id % 2 ^ 27 ≡ n.id % 2 ^ 27)
unfolding value
same_bits m n f g e =
    let a = f.destroy_bit in
    let b = g.destroy_bit in
    let c = f.type_bits in
    let d = g.type_bits in
    (omega (arith, e, a, b), omega (arith, e, a, b, c, d), omega (arith, e, a, b, c, d))

-- The word holds the accessors' answers but the upper five bits of the id: two messages have the
-- same word exactly if `shouldDestroy` and `type` agree and the ids agree in their lower 27 bits.
pub value_iff :
    (m n : PublicMsg)
    → Fits m.flags
    → Fits n.flags
    → (value m.flags ≡ value n.flags) ↔ (
        (should_destroy m ≡ should_destroy n)
        × (message_type m ≡ message_type n)
        × (message_id m % 2 ^ 27 ≡ message_id n % 2 ^ 27))
unfolding value should_destroy message_type message_id
value_iff m n f g = (
  λ e. let (d, t, i) = same_bits m.flags n.flags f g e in (ap (λ x. x == 1) d, t, i),
  λ (d, t, i). ground (arith, d, t, i, f.destroy_bit, g.destroy_bit),
)
