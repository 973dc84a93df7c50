-- ===== src/XmlStream/Samples.antt =====
-- Two events that arrive in uneven chunks.
use tactical_gateway.Base.{◌≡◌, refl, ℕ, List, [], ◌∷◌, ◌++◌, codes, concat}
use tactical_gateway.XmlStream.{XmlRead, event, RootTag, root_named, read_one_xml_event}
use tactical_gateway.XmlStream.Exact.{Exact, read_one_xml_event-Exact}

abbrev root_tag : List ℕ → RootTag
root_tag payload = root_named (codes "event")

abbrev chunks : List (List ℕ)
chunks = codes "<event></ev" ∷ codes "ent> <ev" ∷ codes "ent/>" ∷ []

first_event :
    read_one_xml_event root_tag [] chunks
    ≡ event (codes "<event></event>") (codes "<ev") (codes "ent/>" ∷ [])
unfolding read_one_xml_event
first_event = refl

-- A closing tag with white space in it ends no event.
spaced_tag : read_one_xml_event root_tag (codes "<event></event >") [] ≡ XmlRead.broken
unfolding read_one_xml_event
spaced_tag = refl

read_one_xml_event-Exact_example :
    Exact ([] ++ concat chunks) (read_one_xml_event root_tag [] chunks)
read_one_xml_event-Exact_example = read_one_xml_event-Exact root_tag [] chunks
