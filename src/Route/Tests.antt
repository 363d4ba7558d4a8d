-- ===== src/Route/Tests.antt =====
-- Runs of the route table, and its theorems at inputs.
use uestc_shixvn_mini_web_se.Route.Validate.{
  route_table_validate_iff, AreValid, route_table_validate,
}
use uestc_shixvn_mini_web_se.CString.{str_eq, starts_with}
use uestc_shixvn_mini_web_se.Probe.{probe, djb2_step, djb2}
use uestc_shixvn_mini_web_se.Route.Find.{
  path_matches_prefix, capture, scan_prefixes, empty_result, route_table_find,
}
use uestc_shixvn_mini_web_se.Route.{
  starts_with, hash_lookup, help, user_by_name, djb2, route_table_add, match_prefix, match_exact,
  hash_key, hash_init, new_entry, RouteEntry, RouteTable, hello,
}
use uestc_shixvn_mini_web_se.Route.Registered.{
  Keeps, IsBuilt, route_table_add-IsBuilt, route_table_find_returns,
}
use uestc_shixvn_mini_web_se.Route.Lookup.{Answers, route_table_find-Answers}
use uestc_shixvn_mini_web_se.Route.Methods.{hash_all-one, route_table_find-misses_405}
use uestc_shixvn_mini_web_se.Prelude.{
  ◌≡◌, refl, ◌≢◌, ◌↔◌, true, none, some, [], ◌∷◌, arith, set, codes,
}

abbrev hello_entry : RouteEntry
hello_entry = new_entry (codes "GET") (codes "/hello") match_exact hello [] []

abbrev users_entry : RouteEntry
users_entry = new_entry (codes "GET") (codes "/users/") match_prefix user_by_name [] []

abbrev one_route : RouteTable
one_route = record {
  exact = hello_entry ∷ [];
  prefix = [];
  hash = set hash_init (hash_key (codes "GET") (codes "/hello")) (some 0);
}

abbrev two_routes : RouteTable
two_routes = record one_route { prefix = users_entry ∷ [] }

one_route-IsBuilt : IsBuilt one_route
one_route-IsBuilt = record { hash_is_built = hash_all-one hello_entry; exact_fits = omega arith }

ann :
    route_table_find two_routes (codes "GET") (codes "/users/ann")
    ≡ some (record empty_result { entry = some users_entry; captured = codes "ann" })
unfolding route_table_find hash_lookup hash_key djb2 djb2_step probe scan_prefixes capture
    path_matches_prefix starts_with str_eq
ann = refl

route_table_add-IsBuilt_example :
    Keeps IsBuilt (route_table_add one_route (codes "GET") (codes "/help") match_exact help [] [])
route_table_add-IsBuilt_example =
    route_table_add-IsBuilt one_route (codes "GET") (codes "/help") match_exact help [] []
      one_route-IsBuilt

route_table_find_returns_example : route_table_find one_route (codes "PUT") (codes "/x") ≢ none
route_table_find_returns_example =
    route_table_find_returns one_route (codes "PUT") (codes "/x") one_route-IsBuilt

route_table_find-Answers_example :
    Answers
      (codes "GET")
      (codes "/users/ann")
      (record empty_result { entry = some users_entry; captured = codes "ann" })
      users_entry
route_table_find-Answers_example =
    route_table_find-Answers two_routes (codes "GET") (codes "/users/ann")
      (record empty_result { entry = some users_entry; captured = codes "ann" }) users_entry ann
      refl

keys_differ : hash_key (codes "POST") (codes "/hello") ≢ hash_key (codes "GET") (codes "/hello")
unfolding hash_key djb2 djb2_step
keys_differ = omega arith

route_table_find-misses_405_example :
    route_table_find one_route (codes "POST") (codes "/hello") ≡ some empty_result
route_table_find-misses_405_example =
    route_table_find-misses_405 one_route hello_entry (codes "POST") one_route-IsBuilt refl refl
      keys_differ

route_table_validate_iff_example :
    (route_table_validate two_routes ≡ true)
    ↔ (AreValid two_routes.exact × AreValid two_routes.prefix)
route_table_validate_iff_example = route_table_validate_iff two_routes
