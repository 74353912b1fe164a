-- ===== src/Storage/EventFormat/RoundTrip.antt =====
-- utils/event_format.py: an event that is written and read back.
use nipxi.Prelude.{
  ℕ, ◌≡◌, ◌∙◌, refl, ap, Bool, true, none, some, All, List, [], ◌∷◌, ◌++◌, map, append-nil,
  append_assoc, Dict, insert, arith,
}
use nipxi.Prelude.Text.{Text, text_keys}
use nipxi.Storage.EventFormat.{
  equals, space, upper_char, lower_char, event_type_key, event_type_field, Field, part,
  format_fields, format_event, starts_key, cons_head, split_fields, trim_end, strip, add_part,
  add_parts, parse_event_fields,
}
use nipxi.Storage.EventFormat.Reading.{
  all_key_chars, is_key, no_boundary, IsPlain, IsField, IsSpaceTest, starts_key-space,
  starts_key-part, before_equals-part, after_equals-part, has_equals, is_key-all, is_key-upper,
  name-lower-upper,
}

-- The arguments that are not None, in their order.
abbrev pub present : List Field → Dict Text Text
present [] = []
present ((key, none) ∷ fields) = present fields
present ((key, some value) ∷ fields) = (key, value) ∷ present fields

abbrev pub insert_all : Dict Text Text → Dict Text Text → Dict Text Text
insert_all [] m = m
insert_all ((key, value) ∷ rest) m = insert_all rest (insert key value m)

-- The parts behind the first, each with its space.
abbrev parts : List Field → List Text
parts [] = []
parts ((key, none) ∷ fields) = parts fields
parts ((key, some value) ∷ fields) = (space ∷ part (map upper_char key) value) ∷ parts fields

module _ (is_space : ℕ → Bool) (spaces : IsSpaceTest is_space) where
  no_boundary-part :
      (k v : Text)
      → all_key_chars k ≡ true
      → no_boundary is_space v ≡ true
      → no_boundary is_space (part k v) ≡ true
  no_boundary-part [] v hk hv = ground (arith, spaces.of_equals)
  no_boundary-part (c ∷ k) v hk hv = ground (arith, spaces.of_key_char c, no_boundary-part k v)

  split-last : (t : Text) → no_boundary is_space t ≡ true → split_fields is_space t ≡ t ∷ []
  unfolding split_fields
  split-last [] h = refl
  split-last (c ∷ t) h = ground (arith, split-last t)

  split-space :
      (t rest : Text)
      → no_boundary is_space t ≡ true
      → starts_key rest ≡ true
      → split_fields is_space (t ++ space ∷ rest) ≡ t ∷ cons_head space (split_fields is_space rest)
  unfolding split_fields
  split-space [] rest ht hr = ground (arith, spaces.of_space)
  split-space (c ∷ t) rest ht hr = ground (arith, split-space t rest, starts_key-space t rest)

  starts_key-part_append :
      (k v rest : Text) → is_key k ≡ true → starts_key (part k v ++ rest) ≡ true
  starts_key-part_append k v rest h =
      ap starts_key (append_assoc k (equals ∷ v) rest) ∙ starts_key-part k (v ++ rest) h

  split-parts :
      (t : Text) (fields : List Field)
      → no_boundary is_space t ≡ true
      → All (IsField is_space) fields
      → split_fields is_space (t ++ format_fields fields) ≡ t ∷ parts fields
  unfolding format_fields
  split-parts t [] ht hf = ap (split_fields is_space) (append-nil t) ∙ split-last t ht
  split-parts t ((key, none) ∷ fields) ht hf = split-parts t fields ht hf.1
  split-parts t ((key, some value) ∷ fields) ht hf =
      let k = map upper_char key in
      let hk = is_key-upper key hf.0.0 in
      let more = part k value ++ format_fields fields in
      let clean = no_boundary-part k value (is_key-all k hk) hf.0.1.0 in
      split-space t more ht (starts_key-part_append k value (format_fields fields) hk)
      ∙ ap (λ ps. t ∷ cons_head space ps) (split-parts (part k value) fields clean hf.1)

  trim_end-part : (k v : Text) → trim_end is_space v ≡ v → trim_end is_space (part k v) ≡ part k v
  trim_end-part [] v h = ground (arith, spaces.of_equals)
  trim_end-part (c ∷ []) v h = ground (arith, spaces.of_equals)
  trim_end-part (c ∷ d ∷ k) v h = ground (arith, trim_end-part (d ∷ k) v)

  strip-part :
      (k v : Text)
      → is_key k ≡ true
      → trim_end is_space v ≡ v
      → (strip is_space (part k v) ≡ part k v) × (strip is_space (space ∷ part k v) ≡ part k v)
  strip-part [] v hk hv = ground arith
  strip-part (c ∷ k) v hk hv =
      ground (arith, spaces.of_space, spaces.of_key_char c, trim_end-part (c ∷ k) v)

  add_part-insert :
      (k v : Text) (m : Dict Text Text)
      → is_key k ≡ true
      → trim_end is_space v ≡ v
      → (add_part is_space (part k v) m ≡ insert (map lower_char k) v m)
        × (add_part is_space (space ∷ part k v) m ≡ insert (map lower_char k) v m)
  unfolding add_part
  add_part-insert k v m hk hv =
      let all = is_key-all k hk in
      (
        rw (
          (strip-part k v hk hv).0,
          has_equals k v,
          before_equals-part k v all,
          after_equals-part k v all,
        ),
        rw (
          (strip-part k v hk hv).1,
          has_equals k v,
          before_equals-part k v all,
          after_equals-part k v all,
        ),
      )

  add_parts-insert_all :
      (fields : List Field) (m : Dict Text Text)
      → All (IsField is_space) fields
      → add_parts is_space (parts fields) m ≡ insert_all (present fields) m
  unfolding add_parts
  add_parts-insert_all [] m h = refl
  add_parts-insert_all ((key, none) ∷ fields) m h = add_parts-insert_all fields m h.1
  add_parts-insert_all ((key, some value) ∷ fields) m h =
      let k = map upper_char key in
      let added = (add_part-insert k value m (is_key-upper key h.0.0) h.0.1.1).1 in
      let named = ap (λ n. insert n value m) (name-lower-upper key h.0.0) in
      ap (add_parts is_space (parts fields)) (added ∙ named)
      ∙ add_parts-insert_all fields (insert key value m) h.1

  -- When the spaces are as Python has them, the keywords are lower-case names, and no value ends in a
  -- space or has a space with a key and "=" behind it: what `parse_event_fields` reads from a
  -- formatted event is the event type and then every field that is not None, each assigned in turn.
  pub parse_event_fields-format_event :
      (event_type : Text) (fields : List Field)
      → IsPlain is_space event_type
      → All (IsField is_space) fields
      → parse_event_fields is_space (format_event event_type fields)
        ≡ insert_all ((event_type_field, event_type) ∷ present fields) []
  unfolding parse_event_fields format_event add_parts
  parse_event_fields-format_event event_type fields plain h =
      let clean = no_boundary-part event_type_key event_type refl plain.0 in
      let split = split-parts (part event_type_key event_type) fields clean h in
      let added = (add_part-insert event_type_key event_type [] refl plain.1).0 in
      ap (λ ts. add_parts is_space ts []) split
      ∙ ap (add_parts is_space (parts fields)) added
      ∙ add_parts-insert_all fields ((event_type_field, event_type) ∷ []) h
