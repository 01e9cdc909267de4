-- ===== src/Rpc/Message.antt =====
-- The texts that a JSON-RPC call posts: `Request`, the arguments of `DecryptData` and `GetInfo`, and what
-- encoding/json makes of them. `escape` is its text for a string with other characters than letters,
-- digits and dots.
pub mod Texts
use verus_gateway.Base.{
  ℕ, ◌≡◌, refl, Bool, true, false, not, ◌||◌, Option, none, some, List, [], ◌∷◌, ◌++◌, arith, ltb,
  leb, ◌==◌, nat_eq, if◌then◌else◌, every,
}
use verus_gateway.Base.Bytes.{Byte, Str, lit}
use verus_gateway.Base.Decimal.{decimal}
use verus_gateway.Domain.Request.{is_alphanumeric}

-- The values of `interface{}` that the calls have: an object is a `map[string]interface{}`.
mutual
  pub data Value : Type 0 where
    number : ℕ → Value
    boolean : Bool → Value
    string : Str → Value
    object : Members → Value

  pub data Members : Type 0 where
    no_member : Members
    member : Str → Value → Members → Members

-- `params` is none for a call without arguments, whose slice is nil.
pub record Request : Type 0 where
  pub jsonrpc : Str
  pub id : ℕ
  pub method : Str
  pub params : Option (List Value)

-- The request that `call` makes.
unfoldable pub new_request : Str → List Value → Request
new_request method [] = record { jsonrpc = lit "2.0"; id = 1; method = method; params = none }
new_request method (v ∷ vs) = record {
  jsonrpc = lit "2.0";
  id = 1;
  method = method;
  params = some (v ∷ vs);
}

-- The output that the data descriptor names.
unfoldable pub no_output : Value
no_output = object (
    member (lit "txid")
      (string (lit "0000000000000000000000000000000000000000000000000000000000000000"))
      (member (lit "voutnum") (number 0) no_member))

unfoldable pub data_descriptor : Value
unfolding no_output
data_descriptor = object (
    member (lit "version") (number 1) (
      member (lit "flags") (number 0) (
        member (lit "objectdata")
          (object (
            member (lit "iP3euVSzNcXUrLNHnQnR9G6q8jeYuGSxgw")
              (object (
                member (lit "type") (number 0) (
                  member (lit "version") (number 1) (
                    member (lit "flags") (number 1) (
                      member (lit "output") no_output (
                        member (lit "objectnum") (number 0)
                          (member (lit "subobject") (number 0) no_member)))))))
              no_member))
          no_member)))

-- The request of `DecryptData`.
unfoldable pub decrypt_request : Str → Str → Request
unfolding new_request data_descriptor
decrypt_request txid evk = new_request (lit "decryptdata") (
    object (
      member (lit "datadescriptor") data_descriptor (
        member (lit "txid") (string txid)
          (member (lit "retrieve") (boolean true) (member (lit "evk") (string evk) no_member))))
    ∷ [])

-- The request of `GetInfo`.
unfoldable pub info_request : Request
unfolding new_request
info_request = new_request (lit "getinfo") []

-- Strings in the order of their bytes.
unfoldable pub is_before : Str → Str → Bool
is_before [] t = true
is_before (c ∷ s) [] = false
is_before (c ∷ s) (d ∷ t) = let rest = is_before s t in if c == d then rest else ltb c d

-- A member's name, and its text before another text.
abbrev pub Field : Type 0
Field = Str × (Str → Str)

-- json.Marshal sorts the names of a map.
unfoldable pub insert : Field → List Field → List Field
insert f [] = f ∷ []
insert f (g ∷ fields) =
    let rest = insert f fields in if is_before f.0 g.0 then f ∷ g ∷ fields else g ∷ rest

unfoldable pub is_plain : Byte → Bool
is_plain c = is_alphanumeric c || c == b'.'

module _ (escape : Str → Str) where
  unfoldable pub quote : Str → Str → Str
  quote s rest = 34 ∷ ((if every is_plain s then s else escape s) ++ (34 ∷ rest))

  -- The fields of an object with commas between them.
  unfoldable pub join : List Field → Str → Str
  join [] rest = rest
  join ((name, text) ∷ []) rest = quote name (b':' ∷ text rest)
  join ((name, text) ∷ f ∷ fields) rest = quote name (b':' ∷ text (b',' ∷ join (f ∷ fields) rest))

  unfoldable mutual
    pub encode : Value → Str → Str
    encode (number n) rest = decimal n ++ rest
    encode (boolean true) rest = lit "true" ++ rest
    encode (boolean false) rest = lit "false" ++ rest
    encode (string s) rest = quote s rest
    encode (object members) rest = b'{' ∷ join (fields_of members) (b'}' ∷ rest)

    pub fields_of : Members → List Field
    fields_of no_member = []
    fields_of (member name value members) = insert (name, encode value) (fields_of members)

  unfoldable pub encode_list : List Value → Str → Str
  encode_list [] rest = rest
  encode_list (v ∷ []) rest = encode v rest
  encode_list (v ∷ w ∷ vs) rest = encode v (b',' ∷ encode_list (w ∷ vs) rest)

  -- A nil slice is `null`.
  unfoldable pub encode_params : Option (List Value) → Str → Str
  encode_params none rest = lit "null" ++ rest
  encode_params (some vs) rest = b'[' ∷ encode_list vs (b']' ∷ rest)

  -- `json.Marshal` on a request, whose fields keep their order.
  unfoldable pub marshal_request : Request → Str
  marshal_request r =
      b'{'
      ∷ quote (lit "jsonrpc") (
          b':'
          ∷ quote r.jsonrpc (
              b','
              ∷ quote (lit "id") (
                  b':'
                  ∷ (decimal r.id
                      ++ (b','
                          ∷ quote (lit "method") (
                              b':'
                              ∷ quote r.method (
                                  b','
                                  ∷ quote (lit "params")
                                      (b':' ∷ encode_params r.params (b'}' ∷ [])))))))))
