-- ===== src/Kafka/Examples.antt =====
-- Names of topics.
use fproto.Base.{◌≡◌, refl, [], ◌∷◌, codes, hex_digit, encode_to_string}
use fproto.Kafka.Topics.{user_topic}

user_topic_of : user_topic (0xaa ∷ 0x0b ∷ []) ≡ codes "user-aa0b"
unfolding user_topic encode_to_string hex_digit
user_topic_of = refl
