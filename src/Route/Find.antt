-- ===== src/Route/Find.antt =====
-- `route_table_find` of src/route_table.c.
use uestc_shixvn_mini_web_se.CString.{str_eq, starts_with, strncpy}
use uestc_shixvn_mini_web_se.Route.{
  RouteEntry, RouteTable, Outcome, looping, missing, different_method, matched, entry_at,
  hash_lookup,
}
use uestc_shixvn_mini_web_se.Prelude.{
  Bytes, Bool, true, false, not, Option, none, some, List, [], ◌∷◌, ◌++◌, length, take, drop, ltb,
  leb, if◌then◌else◌, codes,
}

pub record FindResult : Type 0 where
  pub entry : Option RouteEntry
  pub captured : Bytes
  pub is_405 : Bool
  pub allow : Bytes

abbrev pub empty_result : FindResult
empty_result = record { entry = none; captured = []; is_405 = false; allow = [] }

unfoldable pub is_seen : Bytes → List Bytes → Bool
is_seen method [] = false
is_seen method (m ∷ seen) = let rest = is_seen method seen in if str_eq m method then true else rest

abbrev note_seen : Bytes → List Bytes → List Bytes
note_seen method seen = if ltb (length seen) 16 then seen ++ method ∷ [] else seen

abbrev add_method : Bytes → Bytes → Bytes
add_method text method = if ltb 0 (length text) then text ++ (codes ", " ++ method) else method

-- The loop over the entries. `text` is what is written so far, before it is cut to the buffer.
unfoldable pub allow_from : List RouteEntry → Bytes → List Bytes → Bytes → Bytes
allow_from [] path seen text = text
allow_from (e ∷ es) path seen text =
    let skip = allow_from es path seen text in
    let more = allow_from es path (note_seen e.method seen) (add_method text e.method) in
    if not (str_eq e.path path)
    then skip
    else if is_seen e.method seen
    then skip
    else if leb 256 (length (add_method text e.method))
    then add_method text e.method
    else more

-- The entries of an array all have its match type.
unfoldable pub build_allow_for_path : List RouteEntry → Bytes → Bytes
build_allow_for_path entries path = take 255 (allow_from entries path [] [])

-- Whether the pattern starts the path. An empty one never does.
unfoldable pub path_matches_prefix : Bytes → Bytes → Bool
path_matches_prefix [] path = false
path_matches_prefix (x ∷ pattern') path = starts_with (x ∷ pattern') path

-- What `captured` holds after a call.
unfoldable pub capture : Bytes → Bytes → Bytes → Bytes
capture [] path captured = captured
capture (x ∷ pattern') path captured =
    if starts_with (x ∷ pattern') path then strncpy 255 (drop (length (x ∷ pattern')) path) else []

abbrev pub first_405 : List RouteEntry → RouteEntry → FindResult → FindResult
first_405 entries e r =
    if r.is_405 then r else record r { is_405 = true; allow = build_allow_for_path entries e.path }

-- The loop over the prefix entries; `entries` is the whole array.
unfoldable pub scan_prefixes :
    List RouteEntry → List RouteEntry → Bytes → Bytes → FindResult → FindResult
scan_prefixes entries [] method path r = r
scan_prefixes entries (e ∷ es) method path r =
    let r' = record r { captured = capture e.path path r.captured } in
    let skip = scan_prefixes entries es method path r' in
    let go_on = scan_prefixes entries es method path (first_405 entries e r') in
    if path_matches_prefix e.path path
    then (if str_eq e.method method then record r' { entry = some e; is_405 = false } else go_on)
    else skip

abbrev pub find_from : RouteTable → Bytes → Bytes → Outcome → Option FindResult
find_from rt method path looping = none
find_from rt method path (matched i) =
    some (record empty_result { entry = some (entry_at rt.exact i) })
find_from rt method path different_method =
    some (record empty_result { is_405 = true; allow = build_allow_for_path rt.exact path })
find_from rt method path missing = some (scan_prefixes rt.prefix rt.prefix method path empty_result)

-- `none` is a lookup that does not end.
unfoldable pub route_table_find : RouteTable → Bytes → Bytes → Option FindResult
route_table_find rt method path = find_from rt method path (hash_lookup rt method path)
