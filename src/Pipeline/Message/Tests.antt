-- ===== src/Pipeline/Message/Tests.antt =====
-- Two messages whose ids differ by 2^27.
use api_pack.Base.{ℕ, ◌≡◌, ◌↔◌, arith, none, ◌%◌, ◌^◌, ◌+◌}
use api_pack.Pipeline.Message.{
  PublicMsg, value, should_destroy, message_type, message_id, number, open_request,
}
use api_pack.Pipeline.Message.Word.{value_iff}

abbrev message : ℕ → PublicMsg
message i = record {
  flags = record { destroy = 1; msg_type = number open_request; id = i };
  ptr_data = none;
}

value_iff_example : (value (message 5).flags ≡ value (message (5 + 2 ^ 27)).flags) ↔ (
    (should_destroy (message 5) ≡ should_destroy (message (5 + 2 ^ 27)))
    × (message_type (message 5) ≡ message_type (message (5 + 2 ^ 27)))
    × (message_id (message 5) % 2 ^ 27 ≡ message_id (message (5 + 2 ^ 27)) % 2 ^ 27))
unfolding number
value_iff_example =
    value_iff (message 5) (message (5 + 2 ^ 27))
      (record { destroy_bit = omega arith; type_bits = omega arith; id_bits = omega arith })
      (record { destroy_bit = omega arith; type_bits = omega arith; id_bits = omega arith })
