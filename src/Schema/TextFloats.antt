-- ===== src/Schema/TextFloats.antt =====
-- Floats that are their texts, for runs of the definitions of libs/cto_schema/src/cto_schema/models.py
-- and of what is built on them.
use tactical_gateway.Base.{◌+◌, true, some, [], ◌∷◌, Text, codes, text_eq}
use tactical_gateway.Schema.Records.{Floats}

abbrev pub text_floats : Floats Text
text_floats = record {
  parse = λ t. some t;
  same = text_eq;
  shown = λ t. t;
  fixed = λ n t. t;
  is_zero = λ t. text_eq t (codes "0");
  is_known = λ t. true;
  of_integer = λ n. (n + 48) ∷ [];
}
