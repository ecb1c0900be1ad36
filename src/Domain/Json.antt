-- ===== src/Domain/Json.antt =====
-- What the program uses of encoding/json: a document that is one flat object, and the decoding of
-- its fields into a struct. Keys are matched exactly, the last of equal keys wins, a missing or null
-- field leaves the zero value, and a field of another kind, or a number that an int64 does not hold,
-- is an error. The texts of the package's own errors are not modelled.
use eventledger.Prelude.{Bool, false, ◌&&◌, String, List, [], ◌∷◌, str_eq, ltb, leb, if◌then◌else◌}
use eventledger.Prelude.Int.{ℤ, pos, pos_part, neg_part, half_range}
use eventledger.Domain.Errors.{Result, ok, err, text}

-- `composite` is an array, an object or a number with a fraction.
pub data Value : Type 0 where
  str : String → Value
  num : ℤ → Value
  boolean : Bool → Value
  null composite : Value

-- json.RawMessage. `malformed` is any text that Unmarshal refuses for a struct.
pub data RawMessage : Type 0 where
  object : List (String × Value) → RawMessage
  null_message malformed : RawMessage

abbrev json_error {ℓ} : {A : Type ℓ} → Result A
json_error = err (text "json: cannot unmarshal")

abbrev fits_int64 : ℤ → Bool
fits_int64 n = ltb (pos_part n) half_range && leb (neg_part n) half_range

-- A field of the document against a field of the struct that holds `acc` so far.
abbrev assign_string : Value → Result String → Result String
assign_string v (err e) = err e
assign_string (str s) (ok acc) = ok s
assign_string null (ok acc) = ok acc
assign_string (num n) (ok acc) = json_error
assign_string (boolean b) (ok acc) = json_error
assign_string composite (ok acc) = json_error

abbrev assign_int64 : Value → Result ℤ → Result ℤ
assign_int64 v (err e) = err e
assign_int64 (num n) (ok acc) = if fits_int64 n then ok n else json_error
assign_int64 null (ok acc) = ok acc
assign_int64 (str s) (ok acc) = json_error
assign_int64 (boolean b) (ok acc) = json_error
assign_int64 composite (ok acc) = json_error

abbrev assign_bool : Value → Result Bool → Result Bool
assign_bool v (err e) = err e
assign_bool (boolean b) (ok acc) = ok b
assign_bool null (ok acc) = ok acc
assign_bool (str s) (ok acc) = json_error
assign_bool (num n) (ok acc) = json_error
assign_bool composite (ok acc) = json_error

abbrev string_from : Result String → String → List (String × Value) → Result String
string_from acc key [] = acc
string_from acc key ((k, v) ∷ fields) =
    string_from (if str_eq k key then assign_string v acc else acc) key fields

abbrev int64_from : Result ℤ → String → List (String × Value) → Result ℤ
int64_from acc key [] = acc
int64_from acc key ((k, v) ∷ fields) =
    int64_from (if str_eq k key then assign_int64 v acc else acc) key fields

abbrev bool_from : Result Bool → String → List (String × Value) → Result Bool
bool_from acc key [] = acc
bool_from acc key ((k, v) ∷ fields) =
    bool_from (if str_eq k key then assign_bool v acc else acc) key fields

-- The field of a struct that `Unmarshal` fills from the document.
abbrev pub string_field : String → RawMessage → Result String
string_field key (object fields) = string_from (ok "") key fields
string_field key null_message = ok ""
string_field key malformed = json_error

abbrev pub int64_field : String → RawMessage → Result ℤ
int64_field key (object fields) = int64_from (ok (pos 0)) key fields
int64_field key null_message = ok (pos 0)
int64_field key malformed = json_error

abbrev pub bool_field : String → RawMessage → Result Bool
bool_field key (object fields) = bool_from (ok false) key fields
bool_field key null_message = ok false
bool_field key malformed = json_error

-- `json:"<key>,omitempty"` on a string.
abbrev pub omit_empty : String → String → List (String × Value)
omit_empty key s = if str_eq s "" then [] else (key, str s) ∷ []
