-- ===== src/Paging/Token.antt =====
-- Page tokens, internal/runtime/pagination.go. The wire formats, protobuf and base64, and the time type
-- are a parameter.
use pacific_coast.Base.{
  ℕ, String, Bool, Option, none, some, List, [], ◌∷◌, ◌==◌, nat_eq, string_eq, ltb, if◌then◌else◌,
  ◌+◌, ◌-◌, ◌^◌, pos, ℤ, ◌≡◌,
}

-- the dynamic types of a cursor value that the encoder tells apart; a missing pointer is `none`
pub data Value (T : Type 0) : Type 0 where
  string_value : String → Value T
  bytes_value : List ℕ → Value T
  bool_value : Bool → Value T
  int_value int32_value int64_value : ℤ → Value T
  uint32_value uint64_value : ℕ → Value T
  time_value : T → Value T
  time_pointer : Option T → Value T
  nil_value unsupported : Value T

-- the arms of PageTokenValue; `arm_ts none` has no timestamp, `no_arm` no arm
pub data PageTokenValue (S : Type 0) : Type 0 where
  arm_s : String → PageTokenValue S
  arm_i : ℤ → PageTokenValue S
  arm_b : Bool → PageTokenValue S
  arm_ts : Option S → PageTokenValue S
  arm_raw : List ℕ → PageTokenValue S
  arm_num : String → PageTokenValue S
  no_arm : PageTokenValue S

pub record PageToken (S : Type 0) : Type 0 where
  pub entity_id : String
  pub values : List (PageTokenValue S)

pub data ValueError : Type 0 where
  overflow nil_time nil_cursor unsupported_type nil_timestamp empty_arm : ValueError

pub data TokenError : Type 0 where
  empty_entity : TokenError
  bad_value : ℕ → ValueError → TokenError
  marshal_failed bad_base64 bad_message wrong_entity : TokenError

pub data Result (E A : Type 0) : Type 0 where
  ok : A → Result E A
  failed : E → Result E A

-- protobuf reads what it wrote, and the empty message from no bytes; base64 decodes such bytes when it
-- encoded them, and only no bytes have an empty text; a timestamp keeps a time but for its location
pub record Wire (T S : Type 0) : Type 0 where
  pub new_timestamp : T → S
  pub as_time : S → T
  pub utc : T → T
  pub marshal : PageToken S → Option (List ℕ)
  pub unmarshal : List ℕ → Option (PageToken S)
  pub encode_base64 : List ℕ → String
  pub decode_base64 : String → Option (List ℕ)
  pub as_time-new_timestamp : (t : T) → as_time (new_timestamp t) ≡ utc t
  pub unmarshal-marshal :
      (m : PageToken S) (bs : List ℕ) → marshal m ≡ some bs → unmarshal bs ≡ some m
  pub unmarshal-nil : unmarshal [] ≡ some (record { entity_id = ""; values = [] })
  pub decode-encode :
      (m : PageToken S) (bs : List ℕ)
      → marshal m ≡ some bs
      → decode_base64 (encode_base64 bs) ≡ some bs
  pub encode-empty : (bs : List ℕ) → encode_base64 bs ≡ "" → bs ≡ []

-- the loops over the values, with the index of a value that fails
abbrev pub collected :
    {A : Type 0} → ℕ → Result ValueError A → Result TokenError (List A) → Result TokenError (List A)
collected n (failed e) rest = failed (bad_value n e)
collected n (ok v) (failed e) = failed e
collected n (ok v) (ok vs) = ok (v ∷ vs)

module _ {T S : Type 0} (w : Wire T S) where
  unfoldable pub encode_page_token_value : Value T → Result ValueError (PageTokenValue S)
  encode_page_token_value (string_value x) = ok (arm_s x)
  encode_page_token_value (bytes_value x) = ok (arm_raw x)
  encode_page_token_value (bool_value x) = ok (arm_b x)
  encode_page_token_value (int_value x) = ok (arm_i x)
  encode_page_token_value (int32_value x) = ok (arm_i x)
  encode_page_token_value (int64_value x) = ok (arm_i x)
  encode_page_token_value (uint32_value x) = ok (arm_i (pos x))
  encode_page_token_value (uint64_value x) =
      if ltb (2 ^ 63 - 1) x then failed overflow else ok (arm_i (pos x))
  encode_page_token_value (time_value x) = ok (arm_ts (some (w.new_timestamp x)))
  encode_page_token_value (time_pointer none) = failed nil_time
  encode_page_token_value (time_pointer (some x)) = ok (arm_ts (some (w.new_timestamp x)))
  encode_page_token_value nil_value = failed nil_cursor
  encode_page_token_value unsupported = failed unsupported_type

  unfoldable pub decode_page_token_value : PageTokenValue S → Result ValueError (Value T)
  decode_page_token_value (arm_s x) = ok (string_value x)
  decode_page_token_value (arm_i x) = ok (int64_value x)
  decode_page_token_value (arm_b x) = ok (bool_value x)
  decode_page_token_value (arm_ts none) = failed nil_timestamp
  decode_page_token_value (arm_ts (some x)) = ok (time_value (w.as_time x))
  decode_page_token_value (arm_raw x) = ok (bytes_value x)
  decode_page_token_value (arm_num x) = ok (string_value x)
  decode_page_token_value no_arm = failed empty_arm

  -- every value in turn, with the index of one that fails
  unfoldable pub encode_values : ℕ → List (Value T) → Result TokenError (List (PageTokenValue S))
  encode_values n [] = ok []
  encode_values n (v ∷ vs) = collected n (encode_page_token_value v) (encode_values (n + 1) vs)

  unfoldable pub decode_values : ℕ → List (PageTokenValue S) → Result TokenError (List (Value T))
  decode_values n [] = ok []
  decode_values n (v ∷ vs) = collected n (decode_page_token_value v) (decode_values (n + 1) vs)

  abbrev pub packed : Option (List ℕ) → Result TokenError String
  packed none = failed marshal_failed
  packed (some bs) = ok (w.encode_base64 bs)

  abbrev pub marshalled :
      String → Result TokenError (List (PageTokenValue S)) → Result TokenError String
  marshalled entity (failed e) = failed e
  marshalled entity (ok vs) = packed (w.marshal (record { entity_id = entity; values = vs }))

  unfoldable pub encode_page_token : String → List (Value T) → Result TokenError String
  encode_page_token entity vs =
      if entity == "" then failed empty_entity else marshalled entity (encode_values 0 vs)

  abbrev pub checked : String → Option (PageToken S) → Result TokenError (List (Value T))
  checked expected none = failed bad_message
  checked expected (some m) =
      if m.entity_id == expected then decode_values 0 m.values else failed wrong_entity

  abbrev pub unpacked : String → Option (List ℕ) → Result TokenError (List (Value T))
  unpacked expected none = failed bad_base64
  unpacked expected (some bs) = checked expected (w.unmarshal bs)

  -- an empty token is no cursor
  unfoldable pub decode_page_token : String → String → Result TokenError (List (Value T))
  decode_page_token token expected =
      if token == "" then ok [] else unpacked expected (w.decode_base64 token)
