-- ===== src/Send/Paths.antt =====
-- The path of a request, with and without a prefix: api-contracts/src/pathUtils.ts.
use shared_ts_libs.Base.{
  ℕ, ap, true, false, ◌≡◌, refl, [], ◌∷◌, ◌++◌, none, some, Text, if◌then◌else◌,
}
use shared_ts_libs.Send.Request.{
  build_request_path, starts_with_slash, ends_with_slash, without_last,
}

ends_with_slash-append : (t : Text) → ends_with_slash (t ++ 47 ∷ []) ≡ true
ends_with_slash-append [] = refl
ends_with_slash-append (c ∷ []) = refl
ends_with_slash-append (c ∷ d ∷ t) = ends_with_slash-append (d ∷ t)

without_last-append : (t : Text) (c : ℕ) → without_last (t ++ c ∷ []) ≡ t
without_last-append [] c = refl
without_last-append (d ∷ []) c = refl
without_last-append (d ∷ e ∷ t) c = ap (λ r. d ∷ r) (without_last-append (e ∷ t) c)

-- The parts with a single slash between them and one before them.
abbrev pub joined : Text → Text → Text
joined prefix path =
    if starts_with_slash prefix then prefix ++ 47 ∷ path else 47 ∷ prefix ++ 47 ∷ path

-- However a slash ends the prefix or begins the path, a request goes to the prefix, one slash and the
-- path, with a slash before them unless the prefix has its own; without a prefix, or with an empty
-- one, to the path with one slash before it.
pub build_request_path-joined :
    (c : ℕ) (p path : Text)
    → ends_with_slash (c ∷ p) ≡ false
    → starts_with_slash path ≡ false
    → (build_request_path path (some (c ∷ p)) ≡ joined (c ∷ p) path)
      × (build_request_path (47 ∷ path) (some (c ∷ p)) ≡ joined (c ∷ p) path)
      × (build_request_path path (some (c ∷ p ++ 47 ∷ [])) ≡ joined (c ∷ p) path)
      × (build_request_path (47 ∷ path) (some (c ∷ p ++ 47 ∷ [])) ≡ joined (c ∷ p) path)
      × (build_request_path path none ≡ 47 ∷ path)
      × (build_request_path (47 ∷ path) none ≡ 47 ∷ path)
      × (build_request_path path (some []) ≡ 47 ∷ path)
      × (build_request_path (47 ∷ path) (some []) ≡ 47 ∷ path)
unfolding build_request_path
build_request_path-joined c p path e s = (
  rw (e, s) refl,
  rw e refl,
  rw (ends_with_slash-append (c ∷ p), without_last-append (c ∷ p) 47, s) refl,
  rw (ends_with_slash-append (c ∷ p), without_last-append (c ∷ p) 47) refl,
  rw s refl,
  refl,
  rw s refl,
  refl,
)
