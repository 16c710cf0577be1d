-- ===== src/Feed/Stream.antt =====
-- A client that reads the stream gets the events back.
use Prim.Native.Char.{Char, code}
use farm_link.Common.{
  ◌≡◌, refl, ap, ◌∙◌, Bool, true, Option, none, some, List, [], ◌∷◌, ◌++◌, map, ◌==◌, ==_iff,
  if◌then◌else◌, split_on, none_of, none_of-append, split_on-separator,
}
use mathlib.Core.List.{append_assoc}
use farm_link.Feed.{
  Message, subscribe_confirmation, message, unsubscribe_confirmation, data_prefix, newline, chunk,
  yielded, subscribe, event_stream, body,
}

abbrev pub is_newline : Char → Bool
is_newline c = code c == 10

-- A text past a prefix, if it has it.
unfoldable pub after_prefix : List Char → List Char → Option (List Char)
after_prefix [] text = some text
after_prefix (c ∷ start) [] = none
after_prefix (c ∷ start) (d ∷ text) = if code c == code d then after_prefix start text else none

abbrev or_else : Option (List Char) → Option (List Char) → Option (List Char)
or_else none ready = ready
or_else (some event) ready = some event

-- A client of server-sent events, line by line: a line of data makes an event ready, an empty line
-- delivers it, any other line is passed over.
unfoldable pub events : Option (List Char) → List (List Char) → List (List Char)
events ready [] = []
events none ([] ∷ lines) = events none lines
events (some event) ([] ∷ lines) = event ∷ events none lines
events ready ((c ∷ line) ∷ lines) =
    events (or_else (after_prefix data_prefix (c ∷ line)) ready) lines

after_prefix-append : (start text : List Char) → after_prefix start (start ++ text) ≡ some text
unfolding after_prefix
after_prefix-append [] text = refl
after_prefix-append (c ∷ start) text =
    let same : (code c == code c) ≡ true = (==_iff (code c) (code c)).1 refl in
    rw same (after_prefix-append start text)

-- No event has a line break in it: `json.dumps` writes none.
abbrev pub AllOneLine : List (List Char) → Type 0
AllOneLine [] = Unit {0}
AllOneLine (text ∷ texts) = (none_of is_newline text ≡ true) × AllOneLine texts

chunk_lines :
    (text rest : List Char)
    → none_of is_newline text ≡ true
    → split_on is_newline (chunk text ++ rest)
      ≡ (data_prefix ++ text) ∷ [] ∷ split_on is_newline rest
unfolding split_on none_of
chunk_lines text rest h =
    ap (split_on is_newline)
      (ap (λ xs. data_prefix ++ xs) (append_assoc text (newline ∷ newline ∷ []) rest))
    ∙ split_on-separator is_newline (data_prefix ++ text) (newline ∷ rest) newline refl
        (none_of-append is_newline data_prefix text refl h)

events-chunk :
    (text : List Char) (lines : List (List Char))
    → events none ((data_prefix ++ text) ∷ [] ∷ lines) ≡ text ∷ events none lines
unfolding events
events-chunk text lines =
    ap (λ found. events (or_else found none) ([] ∷ lines)) (after_prefix-append data_prefix text)

body-events :
    (texts : List (List Char))
    → AllOneLine texts
    → events none (split_on is_newline (body (map chunk texts))) ≡ texts
unfolding body events split_on
body-events [] h = refl
body-events (text ∷ texts) (one_line, h) =
    ap (events none) (chunk_lines text (body (map chunk texts)) one_line)
    ∙ events-chunk text (split_on is_newline (body (map chunk texts)))
    ∙ ap (λ xs. text ∷ xs) (body-events texts h)

-- The texts that were published, in their order, among what Redis sends of its own.
pub data Carries : List Message → List (List Char) → Type 0 where
  silence : Carries [] []
  subscribed :
      {messages : List Message} {texts : List (List Char)}
      → Carries messages texts
      → Carries (subscribe_confirmation ∷ messages) texts
  published :
      {messages : List Message} {texts : List (List Char)} (text : List Char)
      → Carries messages texts
      → Carries (message text ∷ messages) (text ∷ texts)
  unsubscribed :
      {messages : List Message} {texts : List (List Char)}
      → Carries messages texts
      → Carries (unsubscribe_confirmation ∷ messages) texts

yielded-Carries :
    {messages : List Message} {texts : List (List Char)}
    → Carries messages texts
    → yielded messages ≡ texts
unfolding yielded
yielded-Carries silence = refl
yielded-Carries (subscribed c) = yielded-Carries c
yielded-Carries (published text c) = ap (λ texts. text ∷ texts) (yielded-Carries c)
yielded-Carries (unsubscribed c) = yielded-Carries c

-- When no text that was published on the channel while the client was subscribed has a line break, a
-- client reads back from the body of the stream exactly these texts, event by event and in order, and
-- nothing for Redis's confirmations.
pub event_stream-events :
    {messages : List Message} {texts : List (List Char)}
    → Carries messages texts
    → AllOneLine texts
    → events none (split_on is_newline (body (event_stream messages))) ≡ texts
unfolding event_stream subscribe
event_stream-events {texts = texts} carried h =
    ap (λ ts. events none (split_on is_newline (body (map chunk ts)))) (yielded-Carries carried)
    ∙ body-events texts h
