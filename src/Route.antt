-- ===== src/Route.antt =====
-- src/route_table.c and include/route_table.h: the table of one server, with its hash table. A
-- string is its bytes before the NUL; the pointers are never NULL.
pub mod Find
pub mod Hash
pub mod Lookup
pub mod Methods
pub mod Registered
pub mod Validate
mod Tests
use uestc_shixvn_mini_web_se.CString.{str_eq, starts_with, strncpy}
use uestc_shixvn_mini_web_se.Probe.{
  Slots, hash_size, djb2_step, djb2, probe, probe_free, Found, hit, absent, endless,
}
use uestc_shixvn_mini_web_se.Prelude.{
  Bytes, ◌>>=◌, >>=-eq-some, ℕ, zero, suc, ◌+◌, ◌-◌, ◌*◌, ◌/◌, ◌%◌, ◌^◌, ◌≤◌, ◌<◌, min, bit_or, ◌≡◌,
  refl, sym, ap, subst, ◌∙◌, ◌≢◌, ◌↔◌, ◌⊎◌, inl, inr, Bool, true, false, not, ◌&&◌, ◌||◌, Option,
  none, some, List, [], ◌∷◌, ◌++◌, map, append-nil, append_assoc, arith, ℤ, sub_ℕ, to_nat, is_int,
  pos, negsuc, length, get_elem?, set, length-append, length-set, get_elem?-set_self,
  get_elem?-set_ne, get_or, take, drop, replicate, take-append-drop, length-take, length-drop,
  length-replicate, length-map, get_or-set, get_or-beyond, passes, passes-at, ltb, leb, ◌==◌,
  if◌then◌else◌, ltb→lt, lt→ltb, leb→le, ==_iff, tests, Bool-cases, Option-cases, codes,
}

abbrev pub max_routes : ℕ
max_routes = 128

pub data MatchType : Type 0 where
  match_exact match_prefix : MatchType

pub data HandlerType : Type 0 where
  none_handler hello help sleep user_list user_by_name user_find_index user_compare : HandlerType
  user_compare_verbose user_simple_find user_add user_delete delete_form search_page : HandlerType
  index blog static login logout : HandlerType

pub record RouteEntry : Type 0 where
  pub path : Bytes
  pub match_type : MatchType
  pub method : Bytes
  pub handler : HandlerType
  pub auth_realm : Bytes
  pub required_role : Bytes

-- The two arrays up to their counts, and `g_hash`.
pub record RouteTable : Type 0 where
  pub exact : List RouteEntry
  pub prefix : List RouteEntry
  pub hash : Slots

abbrev pub hash_init : Slots
hash_init = replicate hash_size none

abbrev pub route_table_init : RouteTable
route_table_init = record { exact = []; prefix = []; hash = hash_init }

-- `METHOD:/path`.
unfoldable pub hash_key : Bytes → Bytes → ℕ
hash_key method path = djb2 (djb2_step (djb2 5381 method) b':') path % hash_size

abbrev zero_entry : RouteEntry
zero_entry = record {
  path = [];
  match_type = match_exact;
  method = [];
  handler = hello;
  auth_realm = [];
  required_role = [];
}

-- `rt->exact[i]`; behind the count the array is zero.
abbrev pub entry_at : List RouteEntry → ℕ → RouteEntry
entry_at entries i = get_or entries i zero_entry

-- `none` is a loop that does not end.
unfoldable pub hash_insert : RouteEntry → ℕ → Slots → Option Slots
hash_insert e i t =
    probe_free hash_size t (hash_key e.method e.path) >>= λ h. some (set t h (some i))

-- The loop that inserts the entries from the i-th one on.
unfoldable pub hash_all : ℕ → List RouteEntry → Slots → Option Slots
hash_all i [] t = some t
hash_all i (e ∷ es) t = hash_insert e i t >>= hash_all (suc i) es

pub data Outcome : Type 0 where
  looping missing different_method : Outcome
  matched : ℕ → Outcome

-- The search stops at the first entry with the path.
abbrev pub has_path : List RouteEntry → Bytes → ℕ → Bool
has_path entries path i = str_eq (entry_at entries i).path path

abbrev pub compare_method : List RouteEntry → Bytes → Found → Outcome
compare_method entries method endless = looping
compare_method entries method absent = missing
compare_method entries method (hit h i) =
    if str_eq (entry_at entries i).method method then matched i else different_method

unfoldable pub hash_lookup : RouteTable → Bytes → Bytes → Outcome
hash_lookup rt method path =
    compare_method rt.exact method
      (probe (has_path rt.exact path) hash_size rt.hash (hash_key method path))

unfoldable pub is_duplicate : Bytes → Bytes → List RouteEntry → Bool
is_duplicate method path [] = false
is_duplicate method path (e ∷ es) =
    let rest = is_duplicate method path es in
    if str_eq e.path path && str_eq e.method method then true else rest

abbrev pub new_entry : Bytes → Bytes → MatchType → HandlerType → Bytes → Bytes → RouteEntry
new_entry method path match_type handler auth_realm required_role = record {
  path = strncpy 255 path;
  match_type = match_type;
  method = strncpy 15 method;
  handler = handler;
  auth_realm = strncpy 63 auth_realm;
  required_role = strncpy 31 required_role;
}

pub data Added : Type 0 where
  refused never_returns : Added
  added : RouteTable → Added

abbrev pub with_hash : RouteTable → Option Slots → Added
with_hash rt none = never_returns
with_hash rt (some t) = added (record rt { hash = t })

-- The entry is put behind the others of its kind; for an exact one the hash table is built again.
unfoldable pub route_table_add :
    RouteTable → Bytes → Bytes → MatchType → HandlerType → Bytes → Bytes → Added
route_table_add rt method path match_exact handler auth_realm required_role =
    let e = new_entry method path match_exact handler auth_realm required_role in
    if leb max_routes (length rt.exact)
    then refused
    else if is_duplicate method path rt.exact
    then refused
    else with_hash (record rt { exact = rt.exact ++ e ∷ [] })
        (hash_all 0 (rt.exact ++ e ∷ []) hash_init)
route_table_add rt method path match_prefix handler auth_realm required_role =
    let e = new_entry method path match_prefix handler auth_realm required_role in
    if leb max_routes (length rt.prefix)
    then refused
    else if is_duplicate method path rt.prefix
    then refused
    else added (record rt { prefix = rt.prefix ++ e ∷ [] })
