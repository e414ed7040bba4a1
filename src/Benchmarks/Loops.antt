-- ===== src/Benchmarks/Loops.antt =====
-- The loop of the benchmarks on a whole file.
use feed_handler.Prelude.{
  ℕ, zero, suc, ◌+◌, ◌<◌, ◌≡◌, refl, Option, List, [], ◌∷◌, some, get_elem?, length, arith,
}
use feed_handler.Wire.Bytes.{Buffer}
use feed_handler.Wire.Layout.{At}
use feed_handler.Wire.Message
use feed_handler.Wire.Message.{
  Message, added, executed, canceled, deleted, replaced, other, wire_size,
}
use feed_handler.Feed.Frames.{
  frames, AllFit, At-frame, length-frames, next_message-frame, next_message-end,
}
use feed_handler.Benchmarks.{loop}

-- What a `switch` does to its state, message by message.
abbrev pub all : {S : Type 0} → (S → Message → S) → S → List Message → S
all one s [] = s
all one s (m ∷ ms) = all one (one s m) ms

module _ {S : Type 0} (switch : ℕ → S → Buffer → ℕ → Option S) (one : S → Message → S) where
  -- The `switch` does to its state what `one` says of each encoded message.
  abbrev pub Does : Type 0
  Does =
      (s : S) (buf : Buffer) (p : ℕ) (m : Message)
      → Message.Fits m
      → At buf p (Message.encode m)
      → (type : ℕ) × (get_elem? buf p ≡ some type) × (switch type s buf p ≡ some (one s m))

  pub loop-frames :
      Does
      → (ms : List Message) (fuel : ℕ) (file : Buffer) (offset : ℕ) (s : S) → AllFit ms
      → At file offset (frames ms)
      → offset + length (frames ms) ≡ length file
      → length ms < fuel
      → loop switch fuel file offset s ≡ some (all one s ms)
  unfolding loop
  loop-frames does ms zero file offset s fit at whole enough = absurd (omega arith)
  loop-frames does [] (suc fuel) file offset s fit at whole enough =
      rw (next_message-end file offset (omega arith), loop) refl
  loop-frames does (m ∷ ms) (suc fuel) file offset s fit at whole enough =
      let (size, here, behind) = At-frame file offset m ms fit.0 at in
      let len = length-frames m ms fit.0 in
      let (type, code, done) = does s file (offset + 2) m fit.0 here in
      let rest =
        loop-frames does ms fuel file (offset + 2 + wire_size m) (one s m) fit.1 behind
          (omega (arith, len)) (omega arith) in
      rw (next_message-frame file offset m ms fit.0 at (omega arith), code, done, loop) rest
