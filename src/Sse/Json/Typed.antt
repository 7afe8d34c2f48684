-- ===== src/Sse/Json/Typed.antt =====
-- Texts, lists and dicts read from JSON. Python's code keeps a value of an unexpected type as it is; the
-- model, whose fields are typed, gives `type_error` for it.
use bailian_free_claude_code.Base.{
  String, ◌≡◌, refl, Option, none, some, List, [], ◌∷◌, nat_eq, string_eq, values, key_error,
  Outcome, ok, raised, ◌>>=◌,
}
use bailian_free_claude_code.Base.{type_error}
use bailian_free_claude_code.Sse.Json.{
  Json, null, text, array, object, Items, nil, cons, Fields, end, lookup,
}

abbrev pub text_or_null : Option String → Json
text_or_null none = null
text_or_null (some s) = text s

abbrev pub text_items : List String → Items
text_items [] = nil
text_items (s ∷ ss) = cons (text s) (text_items ss)

-- `d[key]`
abbrev pub item : Fields → String → Outcome Json
item d key = elim (lookup d key) [ none ↦ raised key_error | some value ↦ ok value ]

abbrev pub to_text : Json → Outcome String
to_text (text s) = ok s
to_text _ = raised type_error

abbrev pub to_fields : Json → Outcome Fields
to_fields (object d) = ok d
to_fields _ = raised type_error

-- `d.get(key)` of a text that may be missing
abbrev pub to_optional : Option Json → Outcome (Option String)
to_optional none = ok none
to_optional (some null) = ok none
to_optional (some (text s)) = ok (some s)
to_optional _ = raised type_error

unfoldable pub to_texts : Items → Outcome (List String)
to_texts nil = ok []
to_texts (cons value values) = to_text value >>= λ s. to_texts values >>= λ ss. ok (s ∷ ss)

-- `d.get(key, [])` of a list of texts
abbrev pub to_list : Option Json → Outcome (List String)
to_list none = ok []
to_list (some (array values)) = to_texts values
to_list _ = raised type_error

-- `d.get(key, {})`
abbrev pub fields_or_empty : Option Json → Outcome Fields
fields_or_empty none = ok end
fields_or_empty (some value) = to_fields value

pub optional_round_trip : (o : Option String) → to_optional (some (text_or_null o)) ≡ ok o
optional_round_trip none = refl
optional_round_trip (some s) = refl

pub texts_round_trip : (ss : List String) → to_texts (text_items ss) ≡ ok ss
unfolding to_texts
texts_round_trip [] = refl
texts_round_trip (s ∷ ss) = rw (texts_round_trip ss) refl
