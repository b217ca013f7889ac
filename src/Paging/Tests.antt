-- ===== src/Paging/Tests.antt =====
-- Pages of internal/runtime/pagination.go by two columns, and a token of one value.
use pacific_coast.Base.{
  ℕ, String, Bool, true, false, Option, none, some, List, [], ◌∷◌, ◌==◌, string_eq, if◌then◌else◌,
  format_int, ◌≡◌, ◌≢◌, refl, sym, ap, ◌∙◌, arith,
}
use pacific_coast.Paging.Keyset.{
  KeysetColumn, keyset_predicate, keyset_fragment, print_fragment, predicate,
  order_by_clause_from_keyset,
}
use pacific_coast.Paging.Order.{
  Ordering, equal, above, meaning, comes_after, meaning-keyset_fragment,
}
use pacific_coast.Paging.Token.{
  bool_value, uint64_value, PageTokenValue, arm_b, PageToken, ok, failed, bad_value, overflow, Wire,
  encode_page_token, encode_values, encode_page_token_value, decode_page_token,
}
use pacific_coast.Paging.RoundTrip.{decode_page_token-encode_page_token}

abbrev newest_first : List KeysetColumn
newest_first =
    record { quoted_ident = "\"at\""; desc = true }
    ∷ record { quoted_ident = "\"id\""; desc = false }
    ∷ []

mixed_text :
    keyset_predicate {A = ℕ} newest_first (7 ∷ 3 ∷ []) 2
    ≡ predicate "((\"at\" < $2) OR (\"at\" = $2 AND \"id\" > $3))" (7 ∷ 3 ∷ [])
unfolding keyset_predicate keyset_fragment print_fragment format_int
mixed_text = refl

order_text : order_by_clause_from_keyset newest_first ≡ " ORDER BY \"at\" DESC, \"id\" ASC"
unfolding order_by_clause_from_keyset
order_text = refl

-- the same time, and a greater id
abbrev next_row : String → ℕ → Ordering
next_row name n = if name == "\"at\"" then equal else above

meaning-keyset_fragment_example :
    meaning next_row (keyset_fragment 2 newest_first) ≡ comes_after next_row 2 newest_first
meaning-keyset_fragment_example = meaning-keyset_fragment next_row 2 newest_first

-- a wire that knows one kind of message
abbrev one_flag : List (PageTokenValue ℕ) → Bool
one_flag (arm_b true ∷ []) = true
one_flag vs = false

abbrev flag_token : PageToken ℕ
flag_token = record { entity_id = "A"; values = arm_b true ∷ [] }

abbrev marshal_flag : PageToken ℕ → Option (List ℕ)
marshal_flag m =
    if m.entity_id == "A" then (if one_flag m.values then some (1 ∷ []) else none) else none

abbrev unmarshal_flag : List ℕ → Option (PageToken ℕ)
unmarshal_flag [] = some (record { entity_id = ""; values = [] })
unmarshal_flag (b ∷ bs) = some flag_token

one_flag_only : (vs : List (PageTokenValue ℕ)) → one_flag vs ≡ true → vs ≡ arm_b true ∷ []
one_flag_only (arm_b true ∷ []) e = refl
one_flag_only vs e = ground (arith, e)

marshal_flag_only :
    (m : PageToken ℕ) (bs : List ℕ)
    → marshal_flag m ≡ some bs
    → (bs ≡ 1 ∷ []) × (some flag_token ≡ some m)
marshal_flag_only m bs e =
    ground (arith, e, string_eq.decides m.entity_id "A", one_flag_only m.values)

text_ne : ◌≢◌ {A = String} "AQ" ""
text_ne e = ground (arith, string_eq.decides "AQ" "", e)

abbrev flag_wire : Wire ℕ ℕ
flag_wire = record {
  new_timestamp = λ t. t;
  as_time = λ s. s;
  utc = λ t. t;
  marshal = marshal_flag;
  unmarshal = unmarshal_flag;
  encode_base64 = λ bs. "AQ";
  decode_base64 = λ s. some (1 ∷ []);
  as_time-new_timestamp = λ t. refl;
  unmarshal-marshal =
      λ m bs e. ap unmarshal_flag (marshal_flag_only m bs e).0 ∙ (marshal_flag_only m bs e).1;
  unmarshal-nil = refl;
  decode-encode = λ m bs e. ap some (sym (marshal_flag_only m bs e).0);
  encode-empty = λ bs e. elim (text_ne e) [ ];
}

decode_page_token-encode_page_token_example :
    decode_page_token flag_wire "AQ" "A" ≡ ok (bool_value true ∷ [])
unfolding encode_page_token encode_values encode_page_token_value
decode_page_token-encode_page_token_example =
    decode_page_token-encode_page_token flag_wire "A" "A" "AQ" (bool_value true ∷ []) refl

-- a number beyond int64 makes no token
too_large :
    encode_page_token flag_wire "A" (uint64_value 9223372036854775808 ∷ [])
    ≡ failed (bad_value 0 overflow)
unfolding encode_page_token encode_values encode_page_token_value
too_large = refl
