-- ===== src/Examples/DetailsRuns.antt =====
-- Values in the details pane.
use vaultsql.Prelude.{◌≤◌, some, ◌≡◌, codes, length}
use vaultsql.Details.Json.{
  JsonValue, null, number, string, array, object, no_items, item, no_fields, field, json_stringify,
}
use vaultsql.Details.Formatters.{format_json_pretty, json_view}
use vaultsql.Details.Pretty.{IsNested, format_json_pretty_lem}
use vaultsql.Details.Views.{IsTold, json_view_lem}

abbrev nested : JsonValue
nested = object (
    field (codes "a") (array (item (number (codes "1")) (item null no_items)))
      (field (codes "b") (string (codes "x")) (field (codes "c") (array no_items) no_fields)))

format_json_pretty_lem_example : json_stringify nested ≡ some (format_json_pretty nested 5)
unfolding IsNested
format_json_pretty_lem_example = format_json_pretty_lem nested 5 ((tt, (tt, tt)), (tt, (tt, tt)))

json_view_lem_example :
    (length (json_view (codes "{}")).capped_json ≤ 2003)
    × IsTold (codes "{}") (json_view (codes "{}"))
json_view_lem_example = json_view_lem (codes "{}")
