-- ===== src/Worker/Distill.antt =====
-- What the worker shows to the model and what it makes of the answer.
use Prim.Native.Char.{code}
use latest_poseidon.Prelude.{
  String, str_eq, Bool, false, ◌&&◌, ◌||◌, not, Option, none, some, List, [], ◌∷◌, ◌++◌, map, codes,
  Result, ok, err, ◌>>=◌, if◌then◌else◌,
}
use latest_poseidon.AgentLoop.Types.{Text}
use latest_poseidon.AgentLoop.Content.{join, newline, is_space, rstrip}
use latest_poseidon.Memory.{Field, text, other, shown, is_truthy, Entry, is_blank}

-- A part of a message: its markdown, or its kind.
pub data Part : Type 0 where
  markdown : Text → Part
  part : Text → Part

-- A message.
pub record Item : Type 0 where
  pub role : String
  pub parts : List Part

-- text.lstrip()
unfoldable pub lstrip : Text → Text
lstrip [] = []
lstrip (c ∷ t) = if is_space c then lstrip t else c ∷ t

-- text.strip()
unfoldable pub strip : Text → Text
unfolding lstrip rstrip
strip t = lstrip (rstrip t)

abbrev pub if_ink : Text → List Text → List Text
if_ink t rest = if is_blank t then rest else strip t ∷ rest

-- The loop over the parts of a message.
unfoldable pub render_parts : List Part → List Text
render_parts [] = []
render_parts (markdown t ∷ parts) = if_ink t (render_parts parts)
render_parts (part kind ∷ parts) = (codes "[" ++ (kind ++ codes "]")) ∷ render_parts parts

abbrev pub block : String → List Text → List Text → List Text
block role [] blocks = blocks
block role (t ∷ rendered) blocks =
    (codes role ++ (codes ": " ++ join (newline ∷ []) (t ∷ rendered))) ∷ blocks

unfoldable pub render_blocks : List Item → List Text
render_blocks [] = []
render_blocks (i ∷ items) = block i.role (render_parts i.parts) (render_blocks items)

-- `_render_transcript`
unfoldable pub render_transcript : List Item → Text
render_transcript items = join (newline ∷ newline ∷ []) (render_blocks items)

-- An element of the model's answer: the values of `type` and `statement` of an object, whatever else it
-- carries, or no object.
pub data Element : Type 0 where
  object : Field → Field → Element
  no_object : Element

-- The JSON of an answer.
pub data Json : Type 0 where
  array : List Element → Json
  no_array : Json

-- An entry without its provenance.
pub record Draft : Type 0 where
  pub kind : Field
  pub statement : String

-- `DistillationError`
pub data DistillationError : Type 0 where
  no_json not_a_list not_an_object incomplete : DistillationError

-- The text without the white space at its front.
unfoldable pub strip_front : String → String
strip_front String.[] = String.[]
strip_front (String.◌∷◌ c s) = if is_space (code c) then strip_front s else String.◌∷◌ c s

abbrev pub extend_back : String → String → String
extend_back (String.◌∷◌ c s) String.[] =
    if is_space (code c) then String.[] else String.◌∷◌ c String.[]
extend_back (String.◌∷◌ c s) (String.◌∷◌ d t) = String.◌∷◌ c (String.◌∷◌ d t)
extend_back String.[] t = t

-- And without that at its end.
unfoldable pub strip_back : String → String
strip_back String.[] = String.[]
strip_back (String.◌∷◌ c s) = extend_back (String.◌∷◌ c String.[]) (strip_back s)

-- The loop of `_parse_entries` at one element.
unfoldable pub parse_element : Element → Result DistillationError Draft
unfolding strip_front strip_back
parse_element no_object = err not_an_object
parse_element (object kind statement) =
    if not (is_truthy kind) || is_blank (codes (shown statement))
    then err incomplete
    else ok (record { kind = kind; statement = strip_front (strip_back (shown statement)) })

unfoldable pub parse_elements : List Element → Result DistillationError (List Draft)
parse_elements [] = ok []
parse_elements (x ∷ xs) = do d ← parse_element x; ds ← parse_elements xs; ok (d ∷ ds)

abbrev pub parse_json : Option Json → Result DistillationError (List Draft)
parse_json none = err no_json
parse_json (some no_array) = err not_a_list
parse_json (some (array xs)) = parse_elements xs

-- The body of a fenced answer, or the answer.
abbrev pub payload : Option Text → Text → Text
payload none answer = strip answer
payload (some body) answer = body

-- `_parse_entries`, of an answer that `_FENCE_RE` and `json.loads` read.
unfoldable pub parse_entries :
    (Text → Option Text) → (Text → Option Json) → Text → Result DistillationError (List Draft)
parse_entries fenced loads answer = parse_json (loads (payload (fenced answer) answer))

abbrev pub field_eq : Field → Field → Bool
field_eq (text s) (text t) = str_eq s t
field_eq (other s) (other t) = str_eq s t
field_eq f g = false

-- if entry.get("source_conversation_id") and entry.get("at")
abbrev pub is_attributed : Entry → Bool
is_attributed e = is_truthy e.source_conversation_id && is_truthy e.at

-- The (type, statement) of a draft is that of an entry.
abbrev pub says : Draft → Entry → Bool
says d e = field_eq d.kind e.kind && field_eq (text d.statement) e.statement

abbrev pub or_this : Option Entry → Bool → Entry → Option Entry
or_this (some e') found e = some e'
or_this none found e = if found then some e else none

-- original.get((type, statement)), of the last entry that has them.
unfoldable pub original : Draft → List Entry → Option Entry
original d [] = none
original d (e ∷ es) = or_this (original d es) (is_attributed e && says d e) e

-- An entry with the provenance of the one before it, or of this conversation.
abbrev pub stamp : Draft → Option Entry → String → String → Entry
stamp d none conversation_id at = record {
  kind = d.kind;
  statement = text d.statement;
  source_conversation_id = text conversation_id;
  at = text at;
}
stamp d (some e) conversation_id at = record {
  kind = d.kind;
  statement = text d.statement;
  source_conversation_id = e.source_conversation_id;
  at = e.at;
}

-- `_stamp_entries`
unfoldable pub stamp_entries : List Draft → List Entry → String → String → List Entry
stamp_entries drafts existing conversation_id at =
    map (λ d. stamp d (original d existing) conversation_id at) drafts
