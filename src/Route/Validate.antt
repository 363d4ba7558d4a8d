-- ===== src/Route/Validate.antt =====
-- `route_table_validate` of src/route_table.c.
use uestc_shixvn_mini_web_se.CString.{str_eq_iff, str_eq}
use uestc_shixvn_mini_web_se.Route.{str_eq, RouteEntry, RouteTable, HandlerType, none_handler}
use uestc_shixvn_mini_web_se.Prelude.{
  ℕ, ◌+◌, ◌≡◌, refl, ◌≢◌, ◌↔◌, Bool, true, false, ◌&&◌, List, [], ◌∷◌, arith, ◌==◌, if◌then◌else◌,
}

abbrev is_none : HandlerType → Bool
is_none none_handler = true
is_none other = false

abbrev same_route : RouteEntry → RouteEntry → Bool
same_route e x = str_eq e.path x.path && str_eq e.method x.method

-- The errors of one entry: an unknown handler, and each later entry that is the same route.
unfoldable pub count_same : RouteEntry → List RouteEntry → ℕ
count_same e [] = 0
count_same e (x ∷ es) = (if same_route e x then 1 else 0) + count_same e es

unfoldable pub count_errors : List RouteEntry → ℕ
count_errors [] = 0
count_errors (e ∷ es) = (if is_none e.handler then 1 else 0) + (count_same e es + count_errors es)

-- Whether the result is 0.
unfoldable pub route_table_validate : RouteTable → Bool
route_table_validate rt = count_errors rt.exact + count_errors rt.prefix == 0

-- No other entry of the list is for the method and the path of this one.
abbrev pub IsAlone : RouteEntry → List RouteEntry → Type 0
IsAlone e [] = Unit {0}
IsAlone e (x ∷ es) = ¬ ((e.path ≡ x.path) × (e.method ≡ x.method)) × IsAlone e es

abbrev pub AreValid : List RouteEntry → Type 0
AreValid [] = Unit {0}
AreValid (e ∷ es) = (e.handler ≢ none_handler) × IsAlone e es × AreValid es

same_route_iff :
    (e x : RouteEntry) → (same_route e x ≡ true) ↔ ((e.path ≡ x.path) × (e.method ≡ x.method))
same_route_iff e x = ground (arith, str_eq_iff e.path x.path, str_eq_iff e.method x.method)

is_none_iff : (h : HandlerType) → (is_none h ≡ true) ↔ (h ≡ none_handler)
is_none_iff none_handler = (λ e. refl, λ e. refl)
is_none_iff _ = ground arith

count_same_iff : (e : RouteEntry) (es : List RouteEntry) → (count_same e es ≡ 0) ↔ IsAlone e es
unfolding count_same
count_same_iff e [] = ground arith
count_same_iff e (x ∷ es) = ground (arith, same_route_iff e x, count_same_iff e es)

count_errors_iff : (es : List RouteEntry) → (count_errors es ≡ 0) ↔ AreValid es
unfolding count_errors
count_errors_iff [] = ground arith
count_errors_iff (e ∷ es) =
    ground (arith, is_none_iff e.handler, count_same_iff e es, count_errors_iff es)

-- A table passes the validation exactly if every entry of each array has a known handler, and no
-- two entries of an array are for the same method and path, whatever roles they require: the roles
-- are not looked at.
pub route_table_validate_iff :
    (rt : RouteTable) → (route_table_validate rt ≡ true) ↔ (AreValid rt.exact × AreValid rt.prefix)
unfolding route_table_validate
route_table_validate_iff rt = ground (arith, count_errors_iff rt.exact, count_errors_iff rt.prefix)
