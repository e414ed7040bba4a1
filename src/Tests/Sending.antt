-- ===== src/Tests/Sending.antt =====
-- The sender with two short messages, and with one that is too long.
use feed_handler.Prelude.{
  ℕ, ◌<◌, ◌≡◌, [], ◌∷◌, some, none, length, replicate, length-replicate, arith,
}
use feed_handler.Wire.Bytes.{Buffer}
use feed_handler.Feed.{k_header_size}
use feed_handler.Sender.{Sender, begin, add_message, send_all}
use feed_handler.Sender.Room.{begin-IsValid, send_all-Returns, add_message-none}

abbrev blank : Buffer
blank = replicate 1400 0

blank_width : length blank ≡ 1400
blank_width = length-replicate {A = ℕ} 1400 0

send_all-Returns_example :
    (s' : Sender) × (send_all (begin blank) ((65 ∷ 66 ∷ []) ∷ (67 ∷ []) ∷ []) ≡ some s')
    × (s'.packet_used ≡ k_header_size)
send_all-Returns_example =
    send_all-Returns blank ((65 ∷ 66 ∷ []) ∷ (67 ∷ []) ∷ []) blank_width
      (omega arith, (omega arith, tt))

long_message : 1378 < length (replicate {A = ℕ} 1379 0)
long_message = omega (arith, length-replicate {A = ℕ} 1379 0)

add_message-none_example : add_message (begin blank) (replicate 1379 0) ≡ none
add_message-none_example =
    add_message-none (begin blank) (replicate 1379 0) (begin-IsValid blank blank_width) long_message
