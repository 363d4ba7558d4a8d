-- ===== src/Users/Csv.antt =====
-- `parse_csv_line` of src/user_store.c, and the adding of a line.
use uestc_shixvn_mini_web_se.CString.{strncpy}
use uestc_shixvn_mini_web_se.Users.{Elem, zero_elem, Index, Shared, AddResult, rejected, add_elem}
use uestc_shixvn_mini_web_se.Prelude.{
  Bytes, true, false, Option, none, some, List, [], ◌∷◌, ◌++◌, length, ltb, ◌==◌, if◌then◌else◌,
}

abbrev with_token : Bytes → List Bytes → List Bytes
with_token [] tokens = tokens
with_token (c ∷ token) tokens = (c ∷ token) ∷ tokens

-- `strtok` with ",": the parts between commas that are not empty..
unfoldable pub strtok_from : Bytes → Bytes → List Bytes
strtok_from token [] = with_token token []
strtok_from token (c ∷ line) = elim (c == b',') [
  | true ↦ with_token token (strtok_from [] line)
  | false ↦ strtok_from (token ++ c ∷ []) line
]

abbrev pub strtok : Bytes → List Bytes
strtok line = strtok_from [] line

-- The fields from the first token on; those behind the sixth are not stored.
abbrev pub store_fields : List Bytes → Elem
store_fields [] = zero_elem
store_fields (n ∷ []) = record zero_elem { name = strncpy 63 n }
store_fields (n ∷ p ∷ []) = record zero_elem { name = strncpy 63 n; password = strncpy 63 p }
store_fields (n ∷ p ∷ b ∷ []) = record zero_elem {
  name = strncpy 63 n;
  password = strncpy 63 p;
  birthdate = strncpy 15 b;
}
store_fields (n ∷ p ∷ b ∷ h ∷ []) = record zero_elem {
  name = strncpy 63 n;
  password = strncpy 63 p;
  birthdate = strncpy 15 b;
  phone = strncpy 31 h;
}
store_fields (n ∷ p ∷ b ∷ h ∷ m ∷ []) = record zero_elem {
  name = strncpy 63 n;
  password = strncpy 63 p;
  birthdate = strncpy 15 b;
  phone = strncpy 31 h;
  mobile = strncpy 31 m;
}
store_fields (n ∷ p ∷ b ∷ h ∷ m ∷ e ∷ tokens) = record {
  name = strncpy 63 n;
  password = strncpy 63 p;
  birthdate = strncpy 15 b;
  phone = strncpy 31 h;
  mobile = strncpy 31 m;
  email = strncpy 63 e;
}

-- `none` is the result -1: fewer than three fields.
unfoldable pub parse_csv_line : Bytes → Option Elem
parse_csv_line line =
    if ltb (length (strtok line)) 3 then none else some (store_fields (strtok line))

abbrev add_parsed : {T : Type 0} → Index T → Shared T → Option Elem → Shared T × AddResult
add_parsed ix shared none = (shared, rejected)
add_parsed ix shared (some elem) = add_elem ix elem shared

unfoldable pub user_store_add : {T : Type 0} → Index T → Bytes → Shared T → Shared T × AddResult
user_store_add ix csv_line shared = add_parsed ix shared (parse_csv_line csv_line)
