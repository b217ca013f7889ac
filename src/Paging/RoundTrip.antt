-- ===== src/Paging/RoundTrip.antt =====
-- Page tokens of internal/runtime/pagination.go decode to what they encode.
use pacific_coast.Base.{
  ℕ, String, Option, none, some, List, [], ◌∷◌, ◌==◌, string_eq, map, if◌then◌else◌, ◌+◌, pos, ◌≡◌,
  ◌≢◌, refl, sym, ap, ◌∙◌, arith, Bool-cases, inl, inr,
}
use pacific_coast.Paging.Token.{
  Value, int_value, int32_value, int64_value, uint32_value, uint64_value, time_value, time_pointer,
  PageTokenValue, PageToken, ValueError, TokenError, wrong_entity, Result, ok, failed, Wire,
  encode_page_token_value, decode_page_token_value, collected, encode_values, decode_values, packed,
  marshalled, encode_page_token, checked, unpacked, decode_page_token,
}

abbrev entity_of : {S : Type 0} → Option (PageToken S) → String
entity_of none = ""
entity_of (some m) = m.entity_id

module _ {T S : Type 0} (w : Wire T S) where
  -- a value as it comes back: every integer as an int64, and a time in UTC
  abbrev pub normal : Value T → Value T
  normal (int_value x) = int64_value x
  normal (int32_value x) = int64_value x
  normal (uint32_value x) = int64_value (pos x)
  normal (uint64_value x) = int64_value (pos x)
  normal (time_value t) = time_value (w.utc t)
  normal (time_pointer (some t)) = time_value (w.utc t)
  normal v = v

  value_back :
      (v : Value T) (p : PageTokenValue S)
      → encode_page_token_value w v ≡ ok p
      → decode_page_token_value w p ≡ ok (normal v)
  unfolding encode_page_token_value decode_page_token_value
  value_back (time_value x) p e = ground (arith, e, w.as_time-new_timestamp x)
  value_back (time_pointer (some x)) p e = ground (arith, e, w.as_time-new_timestamp x)
  value_back v p e = ground (arith, e)

  both_collected :
      {A : Type 0} (n : ℕ) (r : Result ValueError A) (rs : Result TokenError (List A)) (ps : List A)
      → collected n r rs ≡ ok ps
      → (q : A) × (qs : List A) × (r ≡ ok q) × (rs ≡ ok qs) × (ps ≡ q ∷ qs)
  both_collected n (failed x) rs ps e = ground (arith, e)
  both_collected n (ok q) (failed x) ps e = ground (arith, e)
  both_collected n (ok q) (ok qs) ps e = (q, qs, refl, refl, ground (arith, e))

  values_back :
      (n m : ℕ) (vs : List (Value T)) (ps : List (PageTokenValue S))
      → encode_values w n vs ≡ ok ps
      → decode_values w m ps ≡ ok (map normal vs)
  unfolding encode_values decode_values
  values_back n m [] ps e = ground (arith, e)
  values_back n m (v ∷ vs) ps e =
      let (q, qs, first, others, all) =
        both_collected n (encode_page_token_value w v) (encode_values w (n + 1) vs) ps e in
      ap (decode_values w m) all
      ∙ ap (λ r. collected m r (decode_values w (m + 1) qs)) (value_back v q first)
      ∙ ap (collected m (ok (normal v))) (values_back (n + 1) (m + 1) vs qs others)

  packed_ok :
      (o : Option (List ℕ)) (token : String)
      → packed w o ≡ ok token
      → (bs : List ℕ) × (o ≡ some bs) × (token ≡ w.encode_base64 bs)
  packed_ok none token e = ground (arith, e)
  packed_ok (some bs) token e = (bs, refl, ground (arith, e))

  marshalled_ok :
      (entity : String) (r : Result TokenError (List (PageTokenValue S))) (token : String)
      → marshalled w entity r ≡ ok token
      → (ps : List (PageTokenValue S)) × (r ≡ ok ps)
        × (packed w (w.marshal (record { entity_id = entity; values = ps })) ≡ ok token)
  marshalled_ok entity (failed x) token e = ground (arith, e)
  marshalled_ok entity (ok ps) token e = (ps, refl, e)

  encoded :
      (entity token : String) (vs : List (Value T))
      → encode_page_token w entity vs ≡ ok token
      → (entity ≢ "") × (marshalled w entity (encode_values w 0 vs) ≡ ok token)
  unfolding encode_page_token
  encoded entity token vs e = elim (Bool-cases (entity == "")) [
    | inl empty ↦ ground (arith, e, empty)
    | inr named ↦
        (λ q. ground (arith, named, q, string_eq.decides entity ""), ground (arith, e, named))
  ]

  -- a token that names an entity is not empty
  token_ne :
      (m : PageToken S) (bs : List ℕ)
      → w.marshal m ≡ some bs
      → m.entity_id ≢ ""
      → w.encode_base64 bs ≢ ""
  token_ne m bs h n e = n (
      ap entity_of
        (sym (w.unmarshal-marshal m bs h) ∙ ap w.unmarshal (w.encode-empty bs e) ∙ w.unmarshal-nil))

  decoded :
      (token expected : String)
      → token ≢ ""
      → decode_page_token w token expected ≡ unpacked w expected (w.decode_base64 token)
  unfolding decode_page_token
  decoded token expected n = ground (arith, string_eq.decides token "", n)

  -- A token that is encoded for an entity decodes, for that entity, to the values it was encoded from,
  -- every integer as an int64 and every time in UTC; for any other entity it is refused.
  pub decode_page_token-encode_page_token :
      (entity expected token : String) (vs : List (Value T))
      → encode_page_token w entity vs ≡ ok token
      → decode_page_token w token expected
        ≡ (if entity == expected then ok (map normal vs) else failed wrong_entity)
  decode_page_token-encode_page_token entity expected token vs e =
      let (named, marshals) = encoded entity token vs e in
      let (ps, values, packs) = marshalled_ok entity (encode_values w 0 vs) token marshals in
      let m : PageToken S = record { entity_id = entity; values = ps } in
      let (bs, written, text) = packed_ok (w.marshal m) token packs in
      decoded token expected (λ q. token_ne m bs written named (sym text ∙ q))
      ∙ ap (unpacked w expected) (ap w.decode_base64 text ∙ w.decode-encode m bs written)
      ∙ ap (checked w expected) (w.unmarshal-marshal m bs written)
      ∙ ap (λ r. if entity == expected then r else failed wrong_entity)
          (values_back 0 0 vs ps values)
