-- ===== src/Pagination/Collected.antt =====
-- What a page says of itself, and what the collecting loop returns.
use shared_ts_libs.Base.{
  ℕ, zero, suc, ◌≤◌, true, false, ◌≡◌, refl, arith, List, [], ◌∷◌, ◌++◌, Option, none, some, String,
  Dict, lookup, ltb, length, take, min, append-nil, ap, get_elem?,
}
use shared_ts_libs.Pagination.{
  by_id, PaginatedResponse, returned, create_paginated_response, Params, params_at, prepend,
  pages_from, get_paginated_entries,
}

length-take {ℓ} : {A : Type ℓ} (n : ℕ) (xs : List A) → min (length xs) n ≡ length (take n xs)
length-take zero xs = omega arith
length-take (suc n) [] = omega arith
length-take (suc n) (x ∷ xs) = omega (arith, length-take n xs)

min_suc : (a b : ℕ) → min (suc a) (suc b) ≡ suc (min a b)
min_suc a b = omega arith

zero_min : (n : ℕ) → min 0 n ≡ 0
zero_min n = omega arith

min_zero : (n : ℕ) → min n 0 ≡ 0
min_zero n = omega arith

-- The id of the last item.
abbrev pub last_id : {V : Type 0} → List (Dict V) → Option V
last_id [] = none
last_id (x ∷ []) = lookup "id" x
last_id (x ∷ y ∷ xs) = last_id (y ∷ xs)

last_id-take :
    {V : Type 0} (n : ℕ) (x : Dict V) (xs : List (Dict V))
    → (y : Dict V) × (get_elem? (x ∷ xs) (min (length xs) n) ≡ some y)
      × (lookup "id" y ≡ last_id (take (suc n) (x ∷ xs)))
last_id-take zero x [] = (x, refl, refl)
last_id-take (suc n) x [] = (x, rw (zero_min (suc n)) refl, refl)
last_id-take zero x (z ∷ xs) = (x, rw (min_zero (suc (length xs))) refl, refl)
last_id-take (suc n) x (z ∷ xs) =
    let (y, found, same) = last_id-take n z xs in (y, rw (min_suc (length xs) n) found, same)

module _ {V : Type 0} (encode_cursor : Dict V → V) where
  -- For a page limit of 1 at least and cursors by id, `createPaginatedResponse` returns the first items
  -- up to the limit, counts exactly these, gives the id of the last one of them as the cursor, and
  -- says that there are more exactly if the page was longer than the limit; an empty page has no cursor.
  pub create_paginated_response-by_id :
      (page : List (Dict V)) (page_limit : ℕ)
      → 1 ≤ page_limit
      → (r : PaginatedResponse (Dict V) V) × (create_paginated_response encode_cursor page
            page_limit by_id
          ≡ returned r)
        × (r.items ≡ take page_limit page)
        × (r.meta.count ≡ length r.items)
        × (r.meta.cursor ≡ last_id r.items)
        × (r.meta.has_more ≡ ltb page_limit (length page))
  unfolding create_paginated_response
  create_paginated_response-by_id page zero h = absurd (omega arith)
  create_paginated_response-by_id [] (suc l) h = (_, refl, refl, refl, refl, ground arith)
  create_paginated_response-by_id (item ∷ page) (suc l) h =
      let (y, found, same) = last_id-take l item page in
      let answer : ℕ → PaginatedResponse (Dict V) V = λ c. record {
        items = take (suc l) (item ∷ page);
        meta = record {
          count = c;
          cursor = lookup "id" y;
          has_more = ltb (suc l) (length (item ∷ page));
        };
      } in
      (
        answer (suc (min (length page) l)),
        rw (min_suc (length page) l)
            (rw found (ap (λ c. returned (answer c)) (min_suc (length page) l))),
        refl,
        ap suc (length-take l page),
        same,
        refl,
      )

module _ {A : Type 0} (api_call : Params → PaginatedResponse A String) (limit : Option ℕ) where
  -- The pages that follow each other from a cursor on: how many, and their items.
  pub data Pages : Option String → ℕ → List A → Type 0 where
    last_page :
        {cursor : Option String}
        → (api_call (params_at limit cursor)).meta.has_more ≡ false
        → Pages cursor 1 (api_call (params_at limit cursor)).items
    next_page :
        {cursor : Option String} {n : ℕ} {es : List A}
        → (api_call (params_at limit cursor)).meta.has_more ≡ true
        → Pages (api_call (params_at limit cursor)).meta.cursor n es
        → Pages cursor (suc n) ((api_call (params_at limit cursor)).items ++ es)

  pages_from-Pages :
      (fuel : ℕ) {cursor : Option String} {n : ℕ} {es : List A}
      → Pages cursor n es
      → n ≤ fuel
      → pages_from api_call fuel limit cursor ≡ some es
  unfolding pages_from
  pages_from-Pages zero (last_page e) le = absurd (omega arith)
  pages_from-Pages zero (next_page e ps) le = absurd (omega arith)
  pages_from-Pages (suc fuel) (last_page {cursor} e) le =
      rw e (ap some (append-nil (api_call (params_at limit cursor)).items))
  pages_from-Pages (suc fuel) (next_page {cursor} e ps) le = rw e (
      ap (prepend (api_call (params_at limit cursor)).items)
        (pages_from-Pages fuel ps (omega arith)))

  -- Where the pages from the given cursor on come to an end, `getPaginatedEntries` returns all their
  -- items in order, with fuel for as many calls as there are pages.
  pub get_paginated_entries-Pages :
      {n : ℕ} {es : List A} (fuel : ℕ) (after : Option String)
      → Pages after n es
      → n ≤ fuel
      → get_paginated_entries api_call fuel (record { limit = limit; after = after }) ≡ some es
  unfolding get_paginated_entries
  get_paginated_entries-Pages fuel after ps le = pages_from-Pages fuel ps le
