-- ===== src/Feed.antt =====
-- The live stream of a pool's feed: `subscribe` of app/core/realtime.py and `event_stream` of
-- app/features/feed/router.py. A text is a list of characters. The messages are those that
-- `pubsub.listen()` gives until the client goes; then the `finally` runs.
pub mod Stream
use Prim.Native.Char.{Char}
use farm_link.Common.{⊤, ℕ, Bool, true, false, List, [], ◌∷◌, ◌++◌, map}
use farm_link.Schema.{Uuid}

-- `message["type"]`, with `message["data"]` where that is a text
pub data Message : Type 0 where
  subscribe_confirmation : Message
  message : (text : List Char) → Message
  unsubscribe_confirmation : Message

-- The connection to Redis.
pub record Pubsub : Type 0 where
  pub subscribed : Bool
  pub is_open : Bool

-- The texts that the loop of `subscribe` yields.
unfoldable pub yielded : List Message → List (List Char)
yielded [] = []
yielded (subscribe_confirmation ∷ messages) = yielded messages
yielded (message text ∷ messages) = text ∷ yielded messages
yielded (unsubscribe_confirmation ∷ messages) = yielded messages

-- `subscribe`, to its end
unfoldable pub subscribe : List Message → List (List Char) × Pubsub
unfolding yielded
subscribe messages = (yielded messages, record { subscribed = false; is_open = false })

abbrev pub data_prefix : List Char
data_prefix = "d" ∷ "a" ∷ "t" ∷ "a" ∷ ":" ∷ " " ∷ []

abbrev pub newline : Char
newline = "\n"

-- f"data: {raw_json}\n\n"
abbrev pub chunk : List Char → List Char
chunk raw_json = data_prefix ++ (raw_json ++ newline ∷ newline ∷ [])

-- `event_stream`: the chunks of the response.
unfoldable pub event_stream : List Message → List (List Char)
unfolding subscribe
event_stream messages = map chunk (subscribe messages).0

-- The body of the response, as the client gets it.
unfoldable pub body : List (List Char) → List Char
body [] = []
body (c ∷ chunks) = c ++ body chunks
