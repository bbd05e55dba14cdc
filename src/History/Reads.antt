-- ===== src/History/Reads.antt =====
-- A client that pages through the conversations, or through the messages of one.
use latest_poseidon.Prelude.{
  ℕ, zero, suc, ◌≤◌, ◌<◌, ◌≡◌, refl, sym, ap, ◌∙◌, String, true, Option, none, some, List, [], ◌++◌,
  reverse, reverse-append, append-nil, length, Result, ok, ◌>>=◌, leb, sort_by, keep, arith,
}
use latest_poseidon.History.{
  Conversation, Message, HistoryError, Codec, conversation_key, message_key, owns, is_in,
  read_cursor, write_cursor, list_conversations, has_conversation, get_messages,
}
use latest_poseidon.History.Pages.{
  Key, newest_first, page, HasKeys, continue, pages, pages-remaining, remaining-none,
  length-sort_by,
}

-- A cursor that was written is read back as its key.
abbrev pub IsFaithful : Codec → Type 0
IsFaithful codec = (key : Key) → codec.decode_cursor (codec.encode_cursor key) ≡ some key

all_rows {ℓ} :
    {A : Type ℓ} (key : A → Key) (fuel limit : ℕ) (rows : List A)
    → 1 ≤ limit
    → HasKeys key rows
    → length rows < fuel
    → pages key fuel limit none rows ≡ sort_by (newest_first key) rows
all_rows key fuel limit rows h k l =
    pages-remaining key fuel limit none rows h k
      (omega (arith, ap length (remaining-none key rows), length-sort_by key rows))
    ∙ remaining-none key rows

module _ (codec : Codec) where
  abbrev pub more_conversations :
      (Option String → Result HistoryError (List Conversation))
      → Option String
      → Result HistoryError (List Conversation)
  more_conversations next none = ok []
  more_conversations next (some c) = next (some c)

  -- Page after page, from a cursor on, until there is no next one.
  unfoldable pub list_all :
      ℕ → String → ℕ → Option String → List Conversation → Result HistoryError (List Conversation)
  list_all zero user limit cursor table = ok []
  list_all (suc fuel) user limit cursor table = do
    p ← list_conversations codec user limit cursor table
    rest ← more_conversations (λ c. list_all fuel user limit c table) p.1
    ok (p.0 ++ rest)

  read_cursor-write_cursor :
      (key : Option Key) → IsFaithful codec → read_cursor codec (write_cursor codec key) ≡ ok key
  unfolding read_cursor
  read_cursor-write_cursor none f = refl
  read_cursor-write_cursor (some key) f = rw (f key)

  list_conversations-page :
      (user : String) (limit : ℕ) (key : Option Key) (table : List Conversation)
      → IsFaithful codec
      → 1 ≤ limit
      → list_conversations codec user limit (write_cursor codec key) table
        ≡ ok (
          (page conversation_key limit key (keep (owns user) table)).0,
          write_cursor codec (page conversation_key limit key (keep (owns user) table)).1,
        )
  unfolding list_conversations
  list_conversations-page user limit key table f h =
      let positive : leb 1 limit ≡ true = ground (arith, h) in
      rw (positive, read_cursor-write_cursor key f)

  -- The pages after a page.
  more_conversations-continue :
      (fuel : ℕ) (user : String) (limit : ℕ) (p : List Conversation × Option Key)
      (table : List Conversation)
      → ((c : Option Key)
          → list_all fuel user limit (write_cursor codec c) table
            ≡ ok (pages conversation_key fuel limit c (keep (owns user) table)))
      → (more_conversations (λ c. list_all fuel user limit c table) (write_cursor codec p.1)
          >>= λ rest. ok (p.0 ++ rest))
        ≡ ok (
            p.0 ++ continue (λ c. pages conversation_key fuel limit c (keep (owns user) table)) p.1)
  more_conversations-continue fuel user limit (items, none) table h = refl
  more_conversations-continue fuel user limit (items, some c) table h = rw (h (some c))

  list_all-pages :
      (fuel : ℕ) (user : String) (limit : ℕ) (key : Option Key) (table : List Conversation)
      → IsFaithful codec
      → 1 ≤ limit
      → list_all fuel user limit (write_cursor codec key) table
        ≡ ok (pages conversation_key fuel limit key (keep (owns user) table))
  unfolding list_all pages
  list_all-pages zero user limit key table f h = refl
  list_all-pages (suc fuel) user limit key table f h =
      rw (list_conversations-page user limit key table f h) (
        more_conversations-continue fuel user limit
          (page conversation_key limit key (keep (owns user) table)) table
          (λ c. list_all-pages fuel user limit c table f h))

  -- A client that pages through a user's conversations, with pages of any size and a next page for as long
  -- as a cursor is returned, sees each of the user's conversations exactly once, the last updated first,
  -- and none of another user; one call more than there are conversations is enough. A cursor that is
  -- written is read back; the ids of the conversations differ, and none changes meanwhile.
  pub list_all-newest :
      (fuel : ℕ) (user : String) (limit : ℕ) (table : List Conversation)
      → IsFaithful codec
      → 1 ≤ limit
      → HasKeys conversation_key (keep (owns user) table)
      → length (keep (owns user) table) < fuel
      → list_all fuel user limit none table
        ≡ ok (sort_by (newest_first conversation_key) (keep (owns user) table))
  list_all-newest fuel user limit table f h k l =
      list_all-pages fuel user limit none table f h
      ∙ ap (λ rows. ok rows) (all_rows conversation_key fuel limit (keep (owns user) table) h k l)

  -- Older messages go in front.
  abbrev pub prepend : Option (List Message) → List Message → Option (List Message)
  prepend none items = none
  prepend (some older) items = some (older ++ items)

  abbrev pub with_older :
      (Option String → Result HistoryError (Option (List Message)))
      → Option (List Message × Option String)
      → Result HistoryError (Option (List Message))
  with_older next none = ok none
  with_older next (some (items, none)) = ok (some items)
  with_older next (some (items, some c)) = next (some c) >>= λ older. ok (prepend older items)

  -- A client that scrolls back through a conversation.
  unfoldable pub read_all :
      ℕ
      → String
      → String
      → ℕ
      → Option String
      → List Conversation
      → List Message
      → Result HistoryError (Option (List Message))
  read_all zero user cid limit cursor conversations messages = ok (some [])
  read_all (suc fuel) user cid limit cursor conversations messages = do
    p ← get_messages codec user cid limit cursor conversations messages
    with_older (λ c. read_all fuel user cid limit c conversations messages) p

  module _ (user cid id : String) (limit : ℕ) (conversations : List Conversation)
      (messages : List Message) (faithful : IsFaithful codec) (positive : 1 ≤ limit)
      (parses : codec.parse_uuid cid ≡ some id)
      (visible : has_conversation user id conversations ≡ true) where
    get_messages-page :
        (key : Option Key)
        → get_messages codec user cid limit (write_cursor codec key) conversations messages
          ≡ ok (
              some (
                reverse (page message_key limit key (keep (is_in user id) messages)).0,
                write_cursor codec (page message_key limit key (keep (is_in user id) messages)).1,
              ))
    unfolding get_messages
    get_messages-page key =
        let first : leb 1 limit ≡ true = ground (arith, positive) in
        rw (first, parses, read_cursor-write_cursor key faithful, visible)

    with_older-continue :
        (fuel : ℕ) (p : List Message × Option Key)
        → ((c : Option Key)
            → read_all fuel user cid limit (write_cursor codec c) conversations messages
              ≡ ok
                  (some (reverse (pages message_key fuel limit c (keep (is_in user id) messages)))))
        → with_older
            (λ c. read_all fuel user cid limit c conversations messages)
            (some (reverse p.0, write_cursor codec p.1))
          ≡ ok (
              some (
                reverse (
                  p.0
                  ++ continue
                      (λ c. pages message_key fuel limit c (keep (is_in user id) messages))
                      p.1)))
    with_older-continue fuel (items, none) h =
        ap (λ l. ok (some (reverse l))) (sym (append-nil items))
    with_older-continue fuel (items, some c) h =
        rw (h (some c)) (ap (λ l. ok (some l)) (sym (reverse-append items _)))

    read_all-pages :
        (fuel : ℕ) (key : Option Key)
        → read_all fuel user cid limit (write_cursor codec key) conversations messages
          ≡ ok (some (reverse (pages message_key fuel limit key (keep (is_in user id) messages))))
    unfolding read_all pages
    read_all-pages zero key = refl
    read_all-pages (suc fuel) key = rw (get_messages-page key) (
        with_older-continue fuel (page message_key limit key (keep (is_in user id) messages))
          (λ c. read_all-pages fuel c))

    -- A client that scrolls back through a conversation that the user sees, with pages of any size, and
    -- puts each page in front of the later ones, has each of its messages exactly once, the oldest first:
    -- the reverse of the newest first; one call more than there are messages is enough. A cursor that is
    -- written is read back; the ids of the messages differ, and none is added meanwhile.
    pub read_all-oldest :
        (fuel : ℕ)
        → HasKeys message_key (keep (is_in user id) messages)
        → length (keep (is_in user id) messages) < fuel
        → read_all fuel user cid limit none conversations messages
          ≡ ok (some (reverse (sort_by (newest_first message_key) (keep (is_in user id) messages))))
    read_all-oldest fuel k l =
        read_all-pages fuel none
        ∙ ap (λ rows. ok (some (reverse rows)))
            (all_rows message_key fuel limit (keep (is_in user id) messages) positive k l)
