-- ===== src/XmlStream.antt =====
-- `_read_one_xml_event` of services/gateway/listeners.py: one event out of a stream of bytes. The
-- bytes arrive in chunks, and an empty chunk or the end of the list is the end of the stream.
-- `root_tag` stands for the parser of xml.etree: the tag of the root, a ParseError, or another
-- exception (an unknown encoding), which the code does not catch.
pub mod Exact
mod Samples
use tactical_gateway.Base.{
  ℕ, Bool, true, false, ◌||◌, Option, none, some, List, [], ◌∷◌, ◌++◌, Text, codes, text_eq, drop,
  length, leb, ◌&&◌, ◌==◌, starts_with, if◌then◌else◌,
}

abbrev pub close_tag : List ℕ
close_tag = codes "</event>"

-- What a call returns or raises; an event comes with the buffer and the chunks that are left.
pub data XmlRead : Type 0 where
  event : List ℕ → List ℕ → List (List ℕ) → XmlRead
  no_more : XmlRead
  broken : XmlRead
  read_raised : XmlRead

-- What the parser says of the bytes of an event.
pub data RootTag : Type 0 where
  root_named : Text → RootTag
  parse_error : RootTag
  parser_raised : RootTag

abbrev pub put_first : ℕ → Option (List ℕ × List ℕ) → Option (List ℕ × List ℕ)
put_first c none = none
put_first c (some (t, r)) = some (c ∷ t, r)

-- The bytes up to the end of the first closing tag, and those behind it.
unfoldable pub split_event : List ℕ → Option (List ℕ × List ℕ)
unfolding starts_with
split_event [] = none
split_event (c ∷ s) =
    let later = put_first c (split_event s) in
    if starts_with (c ∷ s) close_tag
    then some (close_tag, drop (length close_tag) (c ∷ s))
    else later

-- A space, tab, carriage return or line feed.
abbrev pub is_gap : ℕ → Bool
is_gap c = c == 32 || c == 9 || c == 13 || c == 10

unfoldable pub skip_gaps : List ℕ → List ℕ
skip_gaps [] = []
skip_gaps (c ∷ s) = let rest = skip_gaps s in if is_gap c then rest else c ∷ s

-- White space of `bytes.strip`.
abbrev pub is_blank : ℕ → Bool
is_blank c = (leb 9 c && leb c 13) || c == 32

abbrev pub all_blank : List ℕ → Bool
all_blank [] = true
all_blank (c ∷ s) = is_blank c && all_blank s

module _ (root_tag : List ℕ → RootTag) where
  unfoldable pub checked : List ℕ → List ℕ → List (List ℕ) → RootTag → XmlRead
  unfolding skip_gaps text_eq
  checked payload buf chunks parse_error = broken
  checked payload buf chunks parser_raised = read_raised
  checked payload buf chunks (root_named tag) =
      if text_eq tag (codes "event") then event payload (skip_gaps buf) chunks else broken

  abbrev pub at_eof : List ℕ → XmlRead
  at_eof buf = if all_blank buf then no_more else broken

  unfoldable pub found : Option (List ℕ × List ℕ) → List (List ℕ) → XmlRead → XmlRead
  unfolding checked
  found none chunks more = more
  found (some (payload, buf)) chunks more = checked payload buf chunks (root_tag payload)

  unfoldable pub read_one_xml_event : List ℕ → List (List ℕ) → XmlRead
  unfolding split_event found
  read_one_xml_event buf [] = found (split_event buf) [] (at_eof buf)
  read_one_xml_event buf (chunk ∷ chunks) =
      let more = read_one_xml_event (buf ++ chunk) chunks in
      found (split_event buf) (chunk ∷ chunks) (elim chunk [ [] ↦ at_eof buf | _ ∷ _ ↦ more ])
