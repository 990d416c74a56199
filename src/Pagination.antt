-- ===== src/Pagination.antt =====
-- packages/app/api-common/src/paginationUtils.ts: pages with their cursors, and the loop that collects
-- all entries. An item is a plain object with values of a type `V`; the encoding of a cursor that is an
-- object (cursorCodec.ts: JSON in base64) and the values of texts are parameters.
pub mod Collected
mod Tests
use shared_ts_libs.Base.{
  ℕ, zero, suc, ◌-◌, Bool, true, false, List, [], ◌∷◌, ◌++◌, Option, none, some, String, str_eq,
  Dict, lookup, insert, ltb, length, get_elem?, take, min, if◌then◌else◌,
}

-- What a cursor builder returns.
pub data Built (V : Type 0) : Type 0 where
  raw : V → Built V
  fields : Dict V → Built V

-- The third argument: left out, keys, or a builder. A builder gets nothing where there is no last item.
pub data CursorKeys (V : Type 0) : Type 0 where
  by_id : CursorKeys V
  keys : List String → CursorKeys V
  builder : (Option (Dict V) → Built V) → CursorKeys V

-- `cursor` is `none` where it is left out or undefined.
pub record PaginationMeta (V : Type 0) : Type 0 where
  pub count : ℕ
  pub cursor : Option V
  pub has_more : Bool

pub record PaginatedResponse (A V : Type 0) : Type 0 where
  pub items : List A
  pub meta : PaginationMeta V

pub data Paged {ℓ} (A : Type ℓ) : Type ℓ where
  returned : A → Paged A
  empty_keys no_last_item : Paged A

module _ {V : Type 0} (encode_cursor : Dict V → V) where
  copy_prop : String → Dict V → Option V → Dict V
  copy_prop k result none = result
  copy_prop k result (some v) = insert k v result

  pick_into : Dict V → Dict V → List String → Dict V
  unfolding copy_prop
  pick_into result source [] = result
  pick_into result source (k ∷ ks) = pick_into (copy_prop k result (lookup k source)) source ks

  pick : Dict V → List String → Dict V
  unfolding pick_into
  pick source ks = pick_into [] source ks

  built_cursor : Built V → V
  built_cursor (raw v) = v
  built_cursor (fields o) = encode_cursor o

  -- A member of a missing last item is a TypeError.
  cursor_of : CursorKeys V → Option (Dict V) → Paged (Option V)
  unfolding pick built_cursor
  cursor_of (builder build) last = returned (some (built_cursor (build last)))
  cursor_of by_id none = no_last_item
  cursor_of by_id (some last) = returned (lookup "id" last)
  cursor_of (keys ks) none = no_last_item
  cursor_of (keys []) (some last) = empty_keys
  cursor_of (keys (k ∷ [])) (some last) = returned (lookup k last)
  cursor_of (keys (k ∷ j ∷ ks)) (some last) =
      returned (some (encode_cursor (pick last (k ∷ j ∷ ks))))

  -- `currentPageData[count - 1]`
  last_item : List (Dict V) → ℕ → Option (Dict V)
  last_item page zero = none
  last_item page (suc i) = get_elem? page i

  with_cursor : List (Dict V) → ℕ → Paged (Option V) → Paged (PaginationMeta V)
  with_cursor page page_limit (returned c) = returned (record {
    count = min (length page) page_limit;
    cursor = c;
    has_more = ltb page_limit (length page);
  })
  with_cursor page page_limit empty_keys = empty_keys
  with_cursor page page_limit no_last_item = no_last_item

  unfoldable pub get_meta_for_next_page :
      List (Dict V) → ℕ → CursorKeys V → Paged (PaginationMeta V)
  unfolding with_cursor cursor_of last_item
  get_meta_for_next_page page page_limit (keys []) = empty_keys
  get_meta_for_next_page [] page_limit ks =
      returned (record { count = 0; cursor = none; has_more = false })
  get_meta_for_next_page (item ∷ page) page_limit ks =
      with_cursor (item ∷ page) page_limit
        (cursor_of ks (last_item (item ∷ page) (min (length (item ∷ page)) page_limit)))

  with_items : List (Dict V) → Paged (PaginationMeta V) → Paged (PaginatedResponse (Dict V) V)
  with_items items (returned meta) = returned (record { items = items; meta = meta })
  with_items items empty_keys = empty_keys
  with_items items no_last_item = no_last_item

  unfoldable pub create_paginated_response :
      List (Dict V) → ℕ → CursorKeys V → Paged (PaginatedResponse (Dict V) V)
  unfolding with_items get_meta_for_next_page
  create_paginated_response page page_limit ks =
      with_items (take page_limit page) (get_meta_for_next_page page page_limit ks)

-- OptionalPaginationParams. A limit of 0 and an empty cursor are falsy and left out.
pub record Params : Type 0 where
  pub limit : Option ℕ
  pub after : Option String

truthy_limit : Option ℕ → Option ℕ
truthy_limit none = none
truthy_limit (some zero) = none
truthy_limit (some (suc l)) = some (suc l)

truthy_cursor : Option String → Option String
truthy_cursor none = none
truthy_cursor (some c) = if str_eq c "" then none else some c

unfoldable pub params_at : Option ℕ → Option String → Params
unfolding truthy_limit truthy_cursor
params_at limit cursor = record { limit = truthy_limit limit; after = truthy_cursor cursor }

abbrev pub prepend {ℓ} : {A : Type ℓ} → List A → Option (List A) → Option (List A)
prepend xs none = none
prepend xs (some ys) = some (xs ++ ys)

module _ {A : Type 0} (api_call : Params → PaginatedResponse A String) where
  -- The pages from a cursor on; `none` if they are not over when the fuel is.
  unfoldable pub pages_from : ℕ → Option ℕ → Option String → Option (List A)
  pages_from zero limit cursor = none
  pages_from (suc fuel) limit cursor =
      let page = api_call (params_at limit cursor) in
      let rest = pages_from fuel limit page.meta.cursor in
      prepend page.items (if page.meta.has_more then rest else some [])

  unfoldable pub get_paginated_entries : ℕ → Params → Option (List A)
  unfolding pages_from
  get_paginated_entries fuel pagination = pages_from fuel pagination.limit pagination.after
