-- ===== src/Pagination/Tests.antt =====
-- A server with three items, two on a page.
use shared_ts_libs.Base.{
  ℕ, ◌≡◌, refl, arith, true, false, List, [], ◌∷◌, Option, none, some, String, Dict, ltb, length,
  take,
}
use shared_ts_libs.Pagination.{
  by_id, keys, PaginatedResponse, returned, empty_keys, Params, create_paginated_response,
  params_at, get_paginated_entries,
}
use shared_ts_libs.Pagination.Collected.{
  last_id, create_paginated_response-by_id, Pages, last_page, next_page,
  get_paginated_entries-Pages,
}

pagination : Unit {0}
unfolding create_paginated_response params_at get_paginated_entries
pagination = tt

abbrev encode : Dict String → String
encode o = "object"

abbrev item : String → Dict String
item id = ("id", id) ∷ []

abbrev three : List (Dict String)
three = item "a" ∷ item "b" ∷ item "c" ∷ []

page_tests :
    (create_paginated_response encode three 2 by_id
      ≡ returned (record {
        items = item "a" ∷ item "b" ∷ [];
        meta = record { count = 2; cursor = some "b"; has_more = true };
      }))
    × (create_paginated_response encode [] 2 (keys []) ≡ empty_keys)
unfolding pagination
page_tests = (refl, refl)

create_paginated_response-by_id_example :
    (r : PaginatedResponse (Dict String) String) × (create_paginated_response encode three 2 by_id
      ≡ returned r)
    × (r.items ≡ take 2 three)
    × (r.meta.count ≡ length r.items)
    × (r.meta.cursor ≡ last_id r.items)
    × (r.meta.has_more ≡ ltb 2 (length three))
create_paginated_response-by_id_example =
    create_paginated_response-by_id encode three 2 (omega arith)

abbrev first_page : PaginatedResponse ℕ String
first_page = record {
  items = 1 ∷ 2 ∷ [];
  meta = record { count = 2; cursor = some "b"; has_more = true };
}

abbrev second_page : PaginatedResponse ℕ String
second_page = record {
  items = 3 ∷ [];
  meta = record { count = 1; cursor = some "c"; has_more = false };
}

abbrev after_page : Option String → PaginatedResponse ℕ String
after_page none = first_page
after_page (some cursor) = second_page

abbrev server : Params → PaginatedResponse ℕ String
server params = after_page params.after

two-Pages : Pages server (some 2) none 2 (1 ∷ 2 ∷ 3 ∷ [])
unfolding pagination
two-Pages = next_page {cursor = none} refl (last_page {cursor = some "b"} refl)

get_paginated_entries-Pages_example :
    get_paginated_entries server 5 (record { limit = some 2; after = none }) ≡ some (1 ∷ 2 ∷ 3 ∷ [])
get_paginated_entries-Pages_example =
    get_paginated_entries-Pages server (some 2) 5 none two-Pages (omega arith)
